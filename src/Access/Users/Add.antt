-- ===== src/Access/Users/Add.antt =====
-- What `do_useradd` does, on every branch.
use so2c2011tp.Prelude.{
  ℕ, ◌<◌, ◌≡◌, inl, inr, refl, ap, ◌∙◌, Bool, true, false, not, none, some, [], length, set,
  if◌then◌else◌, arith, Bool-cases,
}
use so2c2011tp.Prelude.Int.{ℤ, pos}
use so2c2011tp.Text.{Text, strlen}
use so2c2011tp.Access.State.{
  User, Access, NullPage, nobody, user_is_set, user_get, group_is_set, first_index_lem, at, nowhere,
}
use so2c2011tp.Access.Session.{session_get_egid}
use so2c2011tp.Access.Users.{
  HomeFs, user_find_open_uid, fresh_user, user_add, user_del, is_valid_format, user_set_username,
  user_set_password, user_set_gid, create_user_dir, do_useradd, after_password, after_username,
  after_names, finish_useradd,
}
use so2c2011tp.Access.Users.Laws.{
  with_user, accepts, set_username_entry, set_password_entry, set_gid_entry, del_entry,
  create_user_dir-session,
}

-- The new entry before its group is set: a name or a password that is not accepted stays empty.
abbrev pub named_user : NullPage → Access → ℕ → Text → Text → User
named_user null a i name password = record {
  uid = pos i;
  gid = pos i;
  user_name = if accepts null (set a.users i (fresh_user (pos i))) name then name else [];
  password = if is_valid_format password then password else [];
}

-- The group of the current user, once the new entry is in the table.
abbrev pub gid_of_maker : NullPage → Access → ℕ → Text → Text → ℤ
gid_of_maker null a i name password =
    session_get_egid (with_user a i (named_user null a i name password))

abbrev pub made_user : NullPage → Access → ℕ → Text → Text → User
made_user null a i name password = record (named_user null a i name password) {
  gid = gid_of_maker null a i name password;
}

module _ {F : Type 0} (fs : HomeFs F) (null : NullPage) (a : Access) (f : F)
    (name password : Text) where
  abbrev pub home_made : ℕ → Bool × Access × F
  home_made i = create_user_dir fs (with_user a i (made_user null a i name password)) f (pos i)

  -- How `do_useradd` ends.
  pub data Added : Bool × Access × F → Type 0 where
    table_full :
        ((j : ℕ) → j < 20 → user_is_set a.users (pos j) ≡ true)
        → Added (false, record a { below = fresh_user nobody }, f)
    no_such_group :
        (i : ℕ)
        → i < 20
        → user_is_set a.users (pos i) ≡ false
        → ((j : ℕ) → j < i → user_is_set a.users (pos j) ≡ true)
        → group_is_set a.groups (gid_of_maker null a i name password) ≡ false
        → Added
            (false, with_user a i (record (named_user null a i name password) { uid = nobody }), f)
    no_home :
        (i : ℕ)
        → i < 20
        → user_is_set a.users (pos i) ≡ false
        → ((j : ℕ) → j < i → user_is_set a.users (pos j) ≡ true)
        → group_is_set a.groups (gid_of_maker null a i name password) ≡ true
        → (home_made i).0 ≡ false
        → (err : ℤ) (f' : F)
        → Added (
          false,
          record (with_user a i (record (made_user null a i name password) { uid = nobody })) {
            errno = err;
          },
          f',
        )
    made :
        (i : ℕ)
        → i < 20
        → user_is_set a.users (pos i) ≡ false
        → ((j : ℕ) → j < i → user_is_set a.users (pos j) ≡ true)
        → group_is_set a.groups (gid_of_maker null a i name password) ≡ true
        → (home_made i).0 ≡ true
        → (err : ℤ) (f' : F)
        → Added
            (true, record (with_user a i (made_user null a i name password)) { errno = err }, f')

  module _ (full : length a.users ≡ 20) (short_name : strlen name < 32)
      (short_password : strlen password < 16) where
    user_add_open :
        (i : ℕ)
        → user_is_set a.users (pos i) ≡ false
        → (user_add a (pos i)).1 ≡ with_user a i (fresh_user (pos i))
    unfolding user_add
    user_add_open i free = ground (arith, free)

    -- The name and the password.
    named_lem :
        (i : ℕ)
        → i < 20
        → user_is_set a.users (pos i) ≡ false
        → after_username
            (pos i)
            password
            (user_set_username null (user_add a (pos i)).1 (pos i) name)
          ≡ some (with_user a i (named_user null a i name password))
    unfolding after_username after_password
    named_lem i hi free =
        let ok = accepts null (set a.users i (fresh_user (pos i))) name in
        let fresh = fresh_user (pos i) in
        let named = record fresh { user_name = name } in
        ap (λ x. after_username (pos i) password (user_set_username null x (pos i) name))
          (user_add_open i free)
        ∙ ap (after_username (pos i) password)
            (set_username_entry a i hi full fresh refl null name short_name)
        ∙ elim (Bool-cases ok) [
          | inl taken ↦ rw taken (
              ap after_password (set_password_entry a i hi full named refl password short_password)
              ∙ ground (arith, taken))
          | inr empty ↦ rw empty (
              ap after_password (set_password_entry a i hi full fresh refl password short_password)
              ∙ ground (arith, empty))
        ]

    module _ (idle : a.sudo ≡ none) (i : ℕ) (hi : i < 20)
        (free : user_is_set a.users (pos i) ≡ false) where
      home_kept :
          let r = home_made i in
          r.1 ≡ record (with_user a i (made_user null a i name password)) { errno = r.1.errno }
      home_kept =
          create_user_dir-session fs (with_user a i (made_user null a i name password)) f (pos i)
            idle

      -- The end of `do_useradd`, on what `createUserDir` returned.
      home_ends :
          ((j : ℕ) → j < i → user_is_set a.users (pos j) ≡ true)
          → group_is_set a.groups (gid_of_maker null a i name password) ≡ true
          → let (add_ok, a5, f5) = home_made i in
            Added (if add_ok then (true, a5, f5) else (false, (user_del a5 (pos i)).1, f5))
      home_ends first grouped = elim (Bool-cases (home_made i).0) [
        | inl good ↦
            rw (good, home_kept)
              (made i hi free first grouped good (home_made i).1.errno (home_made i).2)
        | inr bad ↦
            (let err = (home_made i).1.errno in
              rw
                (
                  bad,
                  home_kept,
                  del_entry (record a { errno = err }) i hi full (made_user null a i name password)
                      refl,
                )
                (no_home i hi free first grouped bad err (home_made i).2))
      ]

      do_useradd_at :
          ((j : ℕ) → j < i → user_is_set a.users (pos j) ≡ true)
          → Added (finish_useradd fs (with_user a i (named_user null a i name password)) f (pos i))
      unfolding finish_useradd
      do_useradd_at first =
          rw (set_gid_entry a i hi full (named_user null a i name password) refl)
            (elim (Bool-cases (group_is_set a.groups (gid_of_maker null a i name password))) [
              | inl grouped ↦ rw grouped (home_ends first grouped)
              | inr unknown ↦
                  rw (unknown, del_entry a i hi full (named_user null a i name password) refl)
                    (no_such_group i hi free first unknown)
            ])

      do_useradd_open :
          user_find_open_uid a.users ≡ pos i
          → do_useradd fs null a f name password
            ≡ some (finish_useradd fs (with_user a i (named_user null a i name password)) f (pos i))
      unfolding do_useradd after_names
      do_useradd_open e =
          ap
            (λ u.
              after_names fs f u
                (after_username u password (user_set_username null (user_add a u).1 u name)))
            e
          ∙ ap (after_names fs f (pos i)) (named_lem i hi free)

    do_useradd_full :
        user_find_open_uid a.users ≡ nobody
        → do_useradd fs null a f name password
          ≡ some (false, record a { below = fresh_user nobody }, f)
    unfolding do_useradd after_names after_username after_password finish_useradd user_add
        user_set_username user_set_password user_set_gid user_del user_is_set user_get
    do_useradd_full e =
        ap
          (λ u.
            after_names fs f u
              (after_username u password (user_set_username null (user_add a u).1 u name)))
          e
        ∙ ground arith

pub do_useradd_lem :
    {F : Type 0} (fs : HomeFs F) (null : NullPage) (a : Access) (f : F) (name password : Text)
    → length a.users ≡ 20
    → a.sudo ≡ none
    → strlen name < 32
    → strlen password < 16
    → (out : Bool × Access × F) × (do_useradd fs null a f name password ≡ some out)
      × Added fs null a f name password out
unfolding user_find_open_uid
do_useradd_lem fs null a f name password full idle ns ps =
    elim (first_index_lem (λ i. not (user_is_set a.users (pos i))) 20) [
      | at i e hi hit before ↦
          (let free : user_is_set a.users (pos i) ≡ false = ground (arith, hit) in
            (
              _,
              do_useradd_open fs null a f name password full ns ps idle i hi free e,
              do_useradd_at fs null a f name password full ns ps idle i hi free
                  (λ j p. ground (arith, before j p)),
            ))
      | nowhere e all ↦ (
        _,
        do_useradd_full fs null a f name password full ns ps e,
        table_full (λ j p. ground (arith, all j p)),
      )
    ]
