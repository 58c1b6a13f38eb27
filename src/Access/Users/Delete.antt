-- ===== src/Access/Users/Delete.antt =====
-- What deleting a user and changing a user's group do, on every branch.
use so2c2011tp.Prelude.{
  ℕ, ◌<◌, ◌≡◌, ◌≢◌, ◌⊎◌, inl, inr, refl, Bool, true, false, ◌||◌, List, if◌then◌else◌, arith,
  Bool-cases,
}
use so2c2011tp.Prelude.Int.{ℤ, pos, ◌==ℤ◌, ==ℤ_iff}
use so2c2011tp.Text.{Text, equal_texts}
use so2c2011tp.Text.Compare.{not_equal_texts}
use so2c2011tp.Access.State.{
  User, Access, NullPage, nobody, first_index_lem, at, nowhere, e_invalid_arg, e_access, super_user,
}
use so2c2011tp.Access.Session.{session_get_euid}
use so2c2011tp.Access.Permission.{permission_user_is_owner, permission_group_is_owner}
use so2c2011tp.Access.Users.{user_name_at, user_find, user_del, do_userdel}
use so2c2011tp.Access.Users.Laws.{entry, with_user, get_entry}
use so2c2011tp.Access.Users.Inv.{IsValid, set-IsValid}

-- Index `i` is one at which `user_find` reads the name.
abbrev pub FoundAt : NullPage → List User → Text → ℕ → Type 0
FoundAt null users name i = (i < 20) × (equal_texts (user_name_at null users i) name ≡ true)

-- No user has the name.
abbrev pub Missing : List User → Text → Type 0
Missing users name =
    (j : ℕ) → j < 20 → (entry users j).uid ≢ nobody → (entry users j).user_name ≢ name

-- `user->gid` of the entry that was found.
abbrev pub gid_found : NullPage → Access → ℕ → ℤ
gid_found null a i =
    if (entry a.users i).uid ==ℤ nobody then null.user_gid else (entry a.users i).gid

-- How `do_userdel` ends.
pub data Deleted (null : NullPage) (a : Access) (name : Text) : Bool × Access → Type 0 where
  missing : Missing a.users name → Deleted null a name (false, record a { errno = e_invalid_arg })
  own_user :
      (i : ℕ)
      → FoundAt null a.users name i
      → session_get_euid a ≡ pos i
      → Deleted null a name (false, record a { errno = e_invalid_arg })
  denied :
      (i : ℕ)
      → FoundAt null a.users name i
      → session_get_euid a ≢ super_user
      → session_get_euid a ≢ gid_found null a i
      → Deleted null a name (false, record a { errno = e_access })
  at_null :
      (i : ℕ)
      → FoundAt null a.users name i
      → (entry a.users i).uid ≡ nobody
      → Deleted null a name (false, a)
  deleted :
      (i : ℕ)
      → FoundAt null a.users name i
      → session_get_euid a ≢ pos i
      → (session_get_euid a ≡ super_user) ⊎ (session_get_euid a ≡ (entry a.users i).gid)
      → (entry a.users i).uid ≢ nobody
      → Deleted null a name (true, with_user a i (record (entry a.users i) { uid = nobody }))

unequal : (x y : ℤ) → (x ==ℤ y) ≡ false → x ≢ y
unequal x y f e = ground (arith, f, (==ℤ_iff x y).1 e)

module _ (null : NullPage) (a : Access) (name : Text) where
  not_found :
      ((j : ℕ) → j < 20 → equal_texts (user_name_at null a.users j) name ≡ false)
      → Missing a.users name
  not_found all j p used =
      not_equal_texts _ _
        (ground (arith, all j p, get_entry a.users j p, ==ℤ_iff (entry a.users j).uid nobody, used))

  del_found :
      (i : ℕ)
      → i < 20
      → user_del a (pos i) ≡ (
          if (entry a.users i).uid ==ℤ nobody
          then (false, a)
          else (true, with_user a i (record (entry a.users i) { uid = nobody })))
  unfolding user_del
  del_found i hi = ground (arith, get_entry a.users i hi)

  -- `do_userdel` once the name is found.
  userdel_found :
      (i : ℕ)
      → i < 20
      → user_find null a.users name ≡ pos i
      → do_userdel null a name ≡ (
          if session_get_euid a ==ℤ pos i
          then (false, record a { errno = e_invalid_arg })
          else (if (session_get_euid a ==ℤ super_user)
                || (session_get_euid a ==ℤ gid_found null a i)
              then user_del a (pos i)
              else (false, record a { errno = e_access })))
  unfolding do_userdel permission_user_is_owner permission_group_is_owner
  userdel_found i hi e = rw e (ground (arith, get_entry a.users i hi))

  do_userdel_at :
      (i : ℕ)
      → FoundAt null a.users name i
      → user_find null a.users name ≡ pos i
      → Deleted null a name (do_userdel null a name)
  do_userdel_at i f e =
      rw (userdel_found i f.0 e, del_found i f.0)
        (elim (Bool-cases (session_get_euid a ==ℤ pos i)) [
          | inl own ↦ rw own (own_user i f ((==ℤ_iff _ _).0 own))
          | inr other ↦
              (rw other
                (elim (Bool-cases (
                  (session_get_euid a ==ℤ super_user)
                  || (session_get_euid a ==ℤ gid_found null a i))) [
                    | inl may ↦
                        (rw may (elim (Bool-cases ((entry a.users i).uid ==ℤ nobody)) [
                          | inl gone ↦ rw gone (at_null i f ((==ℤ_iff _ _).0 gone))
                          | inr used ↦ rw used (
                              deleted i f (unequal _ _ other)
                                (ground (
                                  arith,
                                  may,
                                  used,
                                  ==ℤ_iff (session_get_euid a) super_user,
                                  ==ℤ_iff (session_get_euid a) (entry a.users i).gid,
                                ))
                                (unequal _ _ used))
                        ]))
                    | inr may_not ↦ rw may_not (
                        denied i f (unequal _ _ (ground (arith, may_not)))
                          (unequal _ _ (ground (arith, may_not))))
                  ]))
        ])

-- `do_userdel` refuses a name that no user has, the current user, and a caller who is neither the
-- super user nor has the number of the user's group as user id; else it frees that one entry. Only if
-- the page at address 0 reads as the name can it pick a free entry, and then it changes nothing.
pub do_userdel_lem :
    (null : NullPage) (a : Access) (name : Text) → Deleted null a name (do_userdel null a name)
unfolding user_find do_userdel
do_userdel_lem null a name =
    elim (first_index_lem (λ i. equal_texts (user_name_at null a.users i) name) 20) [
      | at i e hi hit before ↦ do_userdel_at null a name i (hi, hit) e
      | nowhere e all ↦ rw e (missing (not_found null a name all))
    ]

Deleted-IsValid :
    (null : NullPage) (a : Access) (name : Text) {out : Bool × Access}
    → IsValid a.users
    → Deleted null a name out
    → IsValid out.1.users
Deleted-IsValid null a name v (missing _) = v
Deleted-IsValid null a name v (own_user _ _ _) = v
Deleted-IsValid null a name v (denied _ _ _ _) = v
Deleted-IsValid null a name v (at_null _ _ _) = v
Deleted-IsValid null a name v (deleted i f _ _ _) =
    set-IsValid a.users i _ v f.0 (inl refl) (λ used. absurd (used refl))

-- After `do_userdel` the table of users is well formed.
pub do_userdel-IsValid :
    (null : NullPage) (a : Access) (name : Text)
    → IsValid a.users
    → IsValid (do_userdel null a name).1.users
do_userdel-IsValid null a name v = Deleted-IsValid null a name v (do_userdel_lem null a name)
