-- ===== src/Access/Users/Laws.antt =====
-- The steps of adding a user, each on the entry that the step before left.
use so2c2011tp.Prelude.{
  ℕ, zero, suc, ◌<◌, ◌≡◌, refl, ap, Bool, true, false, not, ◌&&◌, none, some, List, [], ◌∷◌, ◌==◌,
  length, get_or, set, get_or-set_self, if◌then◌else◌, arith,
}
use so2c2011tp.Prelude.Int.{ℤ, pos, ◌==ℤ◌}
use so2c2011tp.Text.{Text, strlen}
use so2c2011tp.Access.State.{
  User, Access, NullPage, no_user, nobody, user_is_set, user_get, group_is_set,
}
use so2c2011tp.Access.Session.{session_sudo_start, session_sudo_end}
use so2c2011tp.Access.Users.{
  HomeFs, user_find, user_del, is_valid_format, user_set_username, user_set_password, user_set_gid,
  create_user_dir,
}

set-set : (xs : List User) (i : ℕ) (v w : User) → set (set xs i v) i w ≡ set xs i w
set-set [] i v w = refl
set-set (x ∷ xs) zero v w = refl
set-set (x ∷ xs) (suc i) v w = ap (λ ys. x ∷ ys) (set-set xs i v w)

abbrev pub entry : List User → ℕ → User
entry users i = get_or users i no_user

-- The state with `u` in entry `i`.
abbrev pub with_user : Access → ℕ → User → Access
with_user a i u = record a { users = set a.users i u }

module _ (users : List User) (i : ℕ) (hi : i < 20) where
  pub is_set_entry : user_is_set users (pos i) ≡ not ((entry users i).uid ==ℤ nobody)
  unfolding user_is_set
  is_set_entry = ground arith

  pub get_entry : user_get users (pos i) ≡ (if (entry users i).uid ==ℤ nobody then none else some i)
  unfolding user_get user_is_set
  get_entry = ground arith

abbrev pub accepts : NullPage → List User → Text → Bool
accepts null users name =
    not (strlen name == 0) && is_valid_format name && (user_find null users name ==ℤ nobody)

module _ (a : Access) (i : ℕ) (hi : i < 20) (full : length a.users ≡ 20) (u : User)
    (used : (u.uid ==ℤ nobody) ≡ false) where
  pub put_get : get_or (set a.users i u) i no_user ≡ u
  put_get = get_or-set_self a.users i u no_user (omega (arith, full))

  pub set_username_entry :
      (null : NullPage) (name : Text)
      → strlen name < 32
      → user_set_username null (with_user a i u) (pos i) name
        ≡ some (
          accepts null (set a.users i u) name,
          with_user a i
              (if accepts null (set a.users i u) name then record u { user_name = name } else u),
        )
  unfolding user_set_username
  set_username_entry null name fits = ground (
    arith,
    is_set_entry (set a.users i u) i hi,
    get_entry (set a.users i u) i hi,
    put_get,
    used,
    set-set a.users i u (record u { user_name = name }),
  )

  pub set_password_entry :
      (password : Text)
      → strlen password < 16
      → user_set_password (with_user a i u) (pos i) password
        ≡ some (
          is_valid_format password,
          with_user a i (if is_valid_format password then record u { password = password } else u),
        )
  unfolding user_set_password
  set_password_entry password fits = ground (
    arith,
    is_set_entry (set a.users i u) i hi,
    get_entry (set a.users i u) i hi,
    put_get,
    used,
    set-set a.users i u (record u { password = password }),
  )

  pub set_gid_entry :
      (gid : ℤ)
      → user_set_gid (with_user a i u) (pos i) gid ≡ (
          if group_is_set a.groups gid
          then (true, with_user a i (record u { gid = gid }))
          else (false, with_user a i u))
  unfolding user_set_gid
  set_gid_entry gid = ground (
    arith,
    is_set_entry (set a.users i u) i hi,
    get_entry (set a.users i u) i hi,
    put_get,
    used,
    set-set a.users i u (record u { gid = gid }),
  )

  pub del_entry :
      user_del (with_user a i u) (pos i) ≡ (true, with_user a i (record u { uid = nobody }))
  unfolding user_del
  del_entry = ground (
    arith,
    get_entry (set a.users i u) i hi,
    put_get,
    used,
    set-set a.users i u (record u { uid = nobody }),
  )

-- `createUserDir` ends in the session and with the tables that it began with, if it is not called
-- under `sudo`; only `errno` may change.
pub create_user_dir-session :
    {F : Type 0} (fs : HomeFs F) (a : Access) (f : F) (uid : ℤ)
    → a.sudo ≡ none
    → let a' = (create_user_dir fs a f uid).1 in a' ≡ record a { errno = a'.errno }
unfolding create_user_dir session_sudo_start session_sudo_end
create_user_dir-session fs a f uid idle = ground (arith, idle)
