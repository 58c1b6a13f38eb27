-- ===== src/Access/Groups/Delete.antt =====
-- What deleting a group does, on every branch.
use so2c2011tp.Prelude.{
  ℕ, ◌<◌, ◌≡◌, ◌≢◌, ◌⊎◌, inl, inr, refl, Bool, true, false, ◌||◌, List, set, if◌then◌else◌, arith,
  Bool-cases,
}
use so2c2011tp.Prelude.Int.{ℤ, pos, ◌==ℤ◌, ==ℤ_iff}
use so2c2011tp.Text.{Text, equal_texts}
use so2c2011tp.Text.Compare.{not_equal_texts}
use so2c2011tp.Access.State.{
  Group, Access, NullPage, nobody, first_index_lem, at, nowhere, e_invalid_arg, e_access,
  super_user,
}
use so2c2011tp.Access.Session.{session_get_egid, session_get_euid}
use so2c2011tp.Access.Permission.{permission_group_is_owner}
use so2c2011tp.Access.Groups.{group_name_at, group_find, group_del, do_groupdel}
use so2c2011tp.Access.Groups.Laws.{entry, get_entry}
use so2c2011tp.Access.Groups.Inv.{IsValid, set-IsValid}

-- Index `i` is one at which `group_find` reads the name.
abbrev pub FoundAt : NullPage → List Group → Text → ℕ → Type 0
FoundAt null groups name i = (i < 15) × (equal_texts (group_name_at null groups i) name ≡ true)

-- How `do_groupdel` ends.
pub data Deleted (null : NullPage) (a : Access) (name : Text) : Bool × Access → Type 0 where
  missing :
      ((j : ℕ) → j < 15 → (entry a.groups j).gid ≢ nobody → (entry a.groups j).group_name ≢ name)
      → Deleted null a name (false, record a { errno = e_invalid_arg })
  own_group :
      (i : ℕ)
      → FoundAt null a.groups name i
      → session_get_egid a ≡ pos i
      → Deleted null a name (false, record a { errno = e_invalid_arg })
  denied :
      (i : ℕ)
      → FoundAt null a.groups name i
      → session_get_euid a ≢ super_user
      → session_get_euid a ≢ pos i
      → Deleted null a name (false, record a { errno = e_access })
  at_null :
      (i : ℕ)
      → FoundAt null a.groups name i
      → (entry a.groups i).gid ≡ nobody
      → Deleted null a name (false, a)
  deleted :
      (i : ℕ)
      → FoundAt null a.groups name i
      → session_get_egid a ≢ pos i
      → (session_get_euid a ≡ super_user) ⊎ (session_get_euid a ≡ pos i)
      → (entry a.groups i).gid ≢ nobody
      → Deleted null a name
          (true, record a { groups = set a.groups i (record (entry a.groups i) { gid = nobody }) })

unequal : (x y : ℤ) → (x ==ℤ y) ≡ false → x ≢ y
unequal x y f e = ground (arith, f, (==ℤ_iff x y).1 e)

del_found :
    (groups : List Group) (i : ℕ)
    → i < 15
    → group_del groups (pos i) ≡ (
        if (entry groups i).gid ==ℤ nobody
        then (false, groups)
        else (true, set groups i (record (entry groups i) { gid = nobody })))
unfolding group_del
del_found groups i hi = ground (arith, get_entry groups i hi)

module _ (null : NullPage) (a : Access) (name : Text) where
  not_found :
      ((j : ℕ) → j < 15 → equal_texts (group_name_at null a.groups j) name ≡ false)
      → (j : ℕ) → j < 15
      → (entry a.groups j).gid ≢ nobody
      → (entry a.groups j).group_name ≢ name
  not_found all j p used =
      not_equal_texts _ _ (
        ground
          (arith, all j p, get_entry a.groups j p, ==ℤ_iff (entry a.groups j).gid nobody, used))

  do_groupdel_at :
      (i : ℕ)
      → FoundAt null a.groups name i
      → group_find null a.groups name ≡ pos i
      → Deleted null a name (do_groupdel null a name)
  unfolding do_groupdel permission_group_is_owner
  do_groupdel_at i f e =
      rw (e, del_found a.groups i f.0)
        (elim (Bool-cases (session_get_egid a ==ℤ pos i)) [
          | inl own ↦ rw own (own_group i f ((==ℤ_iff _ _).0 own))
          | inr other ↦
              (rw other
                (elim (Bool-cases
                  ((session_get_euid a ==ℤ super_user) || (session_get_euid a ==ℤ pos i))) [
                    | inl may ↦
                        (rw may (elim (Bool-cases ((entry a.groups i).gid ==ℤ nobody)) [
                          | inl gone ↦ rw gone (at_null i f ((==ℤ_iff _ _).0 gone))
                          | inr used ↦ rw used (
                              deleted i f (unequal _ _ other)
                                (ground (
                                  arith,
                                  may,
                                  ==ℤ_iff (session_get_euid a) super_user,
                                  ==ℤ_iff (session_get_euid a) (pos i),
                                ))
                                (unequal _ _ used))
                        ]))
                    | inr may_not ↦ rw may_not (
                        denied i f (unequal _ _ (ground (arith, may_not)))
                          (unequal _ _ (ground (arith, may_not))))
                  ]))
        ])

-- `do_groupdel` refuses a name that no group has, the group of the current user, and a user who is
-- neither the super user nor has the group's number as user id; else it frees that one entry. Only if
-- the page at address 0 reads as the name can it pick a free entry, and then it changes nothing.
pub do_groupdel_lem :
    (null : NullPage) (a : Access) (name : Text) → Deleted null a name (do_groupdel null a name)
unfolding group_find do_groupdel
do_groupdel_lem null a name =
    elim (first_index_lem (λ i. equal_texts (group_name_at null a.groups i) name) 15) [
      | at i e hi hit before ↦ do_groupdel_at null a name i (hi, hit) e
      | nowhere e all ↦ rw e (missing (not_found null a name all))
    ]

Deleted-IsValid :
    (null : NullPage) (a : Access) (name : Text) {out : Bool × Access}
    → IsValid a.groups
    → Deleted null a name out
    → IsValid out.1.groups
Deleted-IsValid null a name v (missing _) = v
Deleted-IsValid null a name v (own_group _ _ _) = v
Deleted-IsValid null a name v (denied _ _ _ _) = v
Deleted-IsValid null a name v (at_null _ _ _) = v
Deleted-IsValid null a name v (deleted i f _ _ _) =
    set-IsValid a.groups i _ v f.0 (inl refl) (λ used. absurd (used refl))

-- After `do_groupdel` the table is well formed.
pub do_groupdel-IsValid :
    (null : NullPage) (a : Access) (name : Text)
    → IsValid a.groups
    → IsValid (do_groupdel null a name).1.groups
do_groupdel-IsValid null a name v = Deleted-IsValid null a name v (do_groupdel_lem null a name)
