-- ===== src/Access/Users/Tests.antt =====
-- A user whose password has a ':' logs in with the empty password.
use so2c2011tp.Prelude.{◌≡◌, refl, true, some, [], set, arith}
use so2c2011tp.Prelude.Int.{pos, ◌-ℤ◌}
use so2c2011tp.Text.{strcmp, strlen, is_in, to_char}
use so2c2011tp.Access.State.{Access, user_is_set, user_get, group_is_set, first_index}
use so2c2011tp.Access.Session.{session_get_egid, session_sudo_start, session_sudo_end}
use so2c2011tp.Access.Users.{
  do_useradd, after_names, after_username, after_password, finish_useradd, fresh_user, user_login,
  user_find_open_uid, user_add, user_set_username, user_set_password, user_set_gid, user_find,
  is_valid_format, create_user_dir, user_del,
}
use so2c2011tp.Access.Users.Laws.{entry, accepts}
use so2c2011tp.Access.Users.Login.{kept_password, user_login-do_useradd}
use so2c2011tp.Access.Tests.{null_page, system, homes, bob, colon}

-- Entry 2 is made for "bob", by the user of entry 1.
abbrev bob_added : Access
bob_added = record system {
  users = set system.users 2 (record { uid = pos 2; gid = pos 1; user_name = bob; password = [] });
}

bob_accepted : accepts null_page (set system.users 2 (fresh_user (pos 2))) bob ≡ true
unfolding user_find user_is_set user_get first_index is_valid_format strcmp strlen is_in to_char
    ◌-ℤ◌
bob_accepted = refl

second_open : user_find_open_uid system.users ≡ pos 2
unfolding user_find_open_uid user_is_set first_index
second_open = refl

colon_added : do_useradd homes null_page system 5 bob colon ≡ some (true, bob_added, 6)
unfolding do_useradd after_names after_username after_password finish_useradd user_find_open_uid
    user_add user_set_username user_set_password user_set_gid user_find is_valid_format
    create_user_dir user_del user_is_set user_get group_is_set first_index session_get_egid
    session_sudo_start session_sudo_end strcmp strlen is_in to_char ◌-ℤ◌
colon_added = refl

user_login-do_useradd_example :
    ((entry bob_added.users 2).user_name ≡ bob)
    × (user_find null_page bob_added.users bob ≡ pos 2)
    × (user_login bob_added (pos 2) (kept_password colon) ≡ (some 2, bob_added))
unfolding strlen
user_login-do_useradd_example =
    user_login-do_useradd homes null_page system bob_added 5 6 bob colon 2 refl refl (omega arith)
      (omega arith) second_open bob_accepted colon_added
