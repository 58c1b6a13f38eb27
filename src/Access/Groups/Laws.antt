-- ===== src/Access/Groups/Laws.antt =====
-- What adding and deleting a group do to the table.
use so2c2011tp.Prelude.{
  ℕ, zero, suc, ◌<◌, ◌≡◌, inl, inr, refl, ap, ◌∙◌, Bool, true, false, not, ◌&&◌, none, some, List,
  [], ◌∷◌, ◌==◌, length, get_or, set, get_or-set_self, if◌then◌else◌, arith, Bool-cases,
}
use so2c2011tp.Prelude.Int.{pos, negsuc, ◌==ℤ◌}
use so2c2011tp.Text.{Text, strlen}
use so2c2011tp.Access.State.{
  Group, NullPage, no_group, nobody, group_is_set, group_get, first_index_lem, Search, at, nowhere,
}
use so2c2011tp.Access.Groups.{
  group_find_open_gid, group_find, group_add, group_del, is_valid_format, group_set_groupname,
  group_set_password, do_groupadd, after_password, after_groupname,
}

set-set : (xs : List Group) (i : ℕ) (v w : Group) → set (set xs i v) i w ≡ set xs i w
set-set [] i v w = refl
set-set (x ∷ xs) zero v w = refl
set-set (x ∷ xs) (suc i) v w = ap (λ ys. x ∷ ys) (set-set xs i v w)

abbrev pub entry : List Group → ℕ → Group
entry groups i = get_or groups i no_group

-- Entry `i` is in use, and is all that a lookup of `i` finds.
module _ (groups : List Group) (i : ℕ) (hi : i < 15) where
  pub is_set_entry : group_is_set groups (pos i) ≡ not ((entry groups i).gid ==ℤ nobody)
  unfolding group_is_set
  is_set_entry = ground arith

  pub get_entry :
      group_get groups (pos i) ≡ (if (entry groups i).gid ==ℤ nobody then none else some i)
  unfolding group_get group_is_set
  get_entry = ground arith

abbrev pub accepts : NullPage → List Group → Text → Bool
accepts null groups name =
    not (strlen name == 0) && is_valid_format name && (group_find null groups name ==ℤ nobody)

-- The steps of `do_groupadd`, each on the entry `g` that the step before left.
module _ (groups : List Group) (i : ℕ) (hi : i < 15) (full : length groups ≡ 15) (g : Group) where
  put_get : get_or (set groups i g) i no_group ≡ g
  put_get = get_or-set_self groups i g no_group (omega (arith, full))

  set_groupname_entry :
      (null : NullPage) (name : Text)
      → (g.gid ==ℤ nobody) ≡ false
      → strlen name < 32
      → group_set_groupname null (set groups i g) (pos i) name
        ≡ some (
          accepts null (set groups i g) name,
          set groups i
              (if accepts null (set groups i g) name then record g { group_name = name } else g),
        )
  unfolding group_set_groupname
  set_groupname_entry null name used fits = ground (
    arith,
    is_set_entry (set groups i g) i hi,
    get_entry (set groups i g) i hi,
    put_get,
    used,
    set-set groups i g (record g { group_name = name }),
  )

  set_password_entry :
      (password : Text)
      → (g.gid ==ℤ nobody) ≡ false
      → strlen password < 16
      → group_set_password (set groups i g) (pos i) password
        ≡ some (
            if is_valid_format password
            then (true, set groups i (record g { password = password }))
            else (false, set groups i g))
  unfolding group_set_password
  set_password_entry password used fits = ground (
    arith,
    is_set_entry (set groups i g) i hi,
    get_entry (set groups i g) i hi,
    put_get,
    used,
    set-set groups i g (record g { password = password }),
  )

  del_entry :
      (g.gid ==ℤ nobody) ≡ false
      → group_del (set groups i g) (pos i) ≡ (true, set groups i (record g { gid = nobody }))
  unfolding group_del
  del_entry used = ground (
    arith,
    get_entry (set groups i g) i hi,
    put_get,
    used,
    set-set groups i g (record g { gid = nobody }),
  )

abbrev pub fresh_group : ℕ → Group
fresh_group i = record { gid = pos i; group_name = []; password = [] }

-- The entry that `do_groupadd` makes: the name stays empty if it is not accepted.
abbrev pub made_group : NullPage → List Group → ℕ → Text → Text → Group
made_group null groups i name password = record {
  gid = pos i;
  group_name = if accepts null (set groups i (fresh_group i)) name then name else [];
  password = password;
}

-- How `do_groupadd` ends.
pub data Added (null : NullPage) (groups : List Group) (name password : Text)
    : Bool × List Group → Type 0 where
  table_full :
      ((j : ℕ) → j < 15 → group_is_set groups (pos j) ≡ true)
      → Added null groups name password (false, groups)
  refused :
      (i : ℕ)
      → i < 15
      → group_is_set groups (pos i) ≡ false
      → is_valid_format password ≡ false
      → (left : Group) → left.gid ≡ nobody
      → Added null groups name password (false, set groups i left)
  made :
      (i : ℕ)
      → i < 15
      → group_is_set groups (pos i) ≡ false
      → ((j : ℕ) → j < i → group_is_set groups (pos j) ≡ true)
      → is_valid_format password ≡ true
      → Added null groups name password
          (true, set groups i (made_group null groups i name password))

module _ (null : NullPage) (groups : List Group) (name password : Text) (full : length groups ≡ 15)
    (short_name : strlen name < 32) (short_password : strlen password < 16) where
  group_add_open :
      (i : ℕ)
      → i < 15
      → group_is_set groups (pos i) ≡ false
      → (group_add groups (pos i)).1 ≡ set groups i (fresh_group i)
  unfolding group_add
  group_add_open i hi free = ground (arith, free)

  -- With a free entry.
  do_groupadd_at :
      (i : ℕ)
      → i < 15
      → group_is_set groups (pos i) ≡ false
      → group_find_open_gid groups ≡ pos i
      → do_groupadd null groups name password
        ≡ some (
            if is_valid_format password
            then (true, set groups i (made_group null groups i name password))
            else (false, set groups i (record (made_group null groups i name []) { gid = nobody })))
  unfolding do_groupadd after_groupname after_password
  do_groupadd_at i hi free e =
      let fresh = fresh_group i in
      let named = record fresh { group_name = name } in
      ap (λ g. after_groupname g password (group_set_groupname null (group_add groups g).1 g name))
        e
      ∙ ap (λ gs. after_groupname (pos i) password (group_set_groupname null gs (pos i) name))
          (group_add_open i hi free)
      ∙ ap (after_groupname (pos i) password)
          (set_groupname_entry groups i hi full fresh null name refl short_name)
      ∙ elim (Bool-cases (accepts null (set groups i fresh) name)) [
        | inl taken ↦ rw taken (
            ap (after_password (pos i))
              (set_password_entry groups i hi full named password refl short_password)
            ∙ ground (arith, taken, del_entry groups i hi full named refl))
        | inr empty ↦ rw empty (
            ap (after_password (pos i))
              (set_password_entry groups i hi full fresh password refl short_password)
            ∙ ground (arith, empty, del_entry groups i hi full fresh refl))
      ]

  do_groupadd_full :
      group_find_open_gid groups ≡ negsuc 0
      → do_groupadd null groups name password ≡ some (false, groups)
  unfolding do_groupadd after_groupname after_password group_add group_set_groupname
      group_set_password group_del group_is_set group_get
  do_groupadd_full e =
      ap (λ g. after_groupname g password (group_set_groupname null (group_add groups g).1 g name))
        e
      ∙ ground arith

  Added-cases :
      Search (λ i. not (group_is_set groups (pos i))) 15 (group_find_open_gid groups)
      → (out : Bool × List Group) × (do_groupadd null groups name password ≡ some out)
        × Added null groups name password out
  Added-cases (nowhere e all) = (_, do_groupadd_full e, table_full (λ j p. ground (arith, all j p)))
  Added-cases (at i e hi hit before) =
      let free : group_is_set groups (pos i) ≡ false = ground (arith, hit) in
      (
        _,
        do_groupadd_at i hi free e,
        elim (Bool-cases (is_valid_format password)) [
          | inl good ↦ rw good (made i hi free (λ j p. ground (arith, before j p)) good)
          | inr bad ↦ rw bad (refused i hi free bad _ refl)
        ],
      )

-- `do_groupadd` on the table of fifteen entries, with a name of less than 32 and a password of less than
-- 16 characters: with no free entry it answers false and changes
-- nothing; a password with a ':' makes it answer false, and the entry it took is free again; otherwise
-- it answers true and makes the group in the first free entry, with an empty name if the name is
-- empty, has a ':' or is taken. No other entry changes.
pub do_groupadd_lem :
    (null : NullPage) (groups : List Group) (name password : Text)
    → length groups ≡ 15
    → strlen name < 32
    → strlen password < 16
    → (out : Bool × List Group) × (do_groupadd null groups name password ≡ some out)
      × Added null groups name password out
unfolding group_find_open_gid
do_groupadd_lem null groups name password full ns ps =
    Added-cases null groups name password full ns ps
      (first_index_lem (λ i. not (group_is_set groups (pos i))) 15)
