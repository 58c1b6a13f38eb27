-- ===== src/Access/Users.antt =====
-- src/access/user.c: the table of users.
pub mod Laws
pub mod Add
pub mod Inv
pub mod Delete
pub mod Login
mod Tests
use so2c2011tp.Prelude.{
  zero, suc, ℕ, ◌+◌, ◌-◌, ◌<◌, ◌≡◌, ◌≢◌, Bool, true, false, not, ◌&&◌, ◌||◌, Option, none, some,
  List, [], ◌∷◌, ◌++◌, ltb, leb, ◌==◌, get_or, set, map, if◌then◌else◌,
}
use so2c2011tp.Prelude.Int.{ℤ, pos, negsuc, ◌==ℤ◌}
use so2c2011tp.Text.{Text, equal_texts, is_in, strlen}
use so2c2011tp.Text.Numbers.{itoa}
use so2c2011tp.Access.State.{
  User, Group, Access, NullPage, no_user, nobody, super_user, user_max, name_size, password_size,
  user_is_set, user_get, group_is_set, first_index, ok, e_user_invalid_username,
  e_user_invalid_password, e_file_exists, e_invalid_arg, e_access,
}
use so2c2011tp.Access.Session.{
  session_get_euid, session_get_egid, session_sudo_start, session_sudo_end,
}
use so2c2011tp.Access.Permission.{permission_user_is_owner, permission_group_is_owner}

-- What `createUserDir` asks of the file system (src/fs/fs.c), whose state is `F`. `create` is
-- `createdir_fs` in the home directory: it returns the inode or -1. Each call also returns the value
-- of `errno` that it leaves.
pub record HomeFs (F : Type 0) : Type 0 where
  pub create : Access → F → Text → ℤ × ℤ × F
  pub set_uid : Access → F → ℤ → ℤ → ℤ × F
  pub set_gid : Access → F → ℤ → ℤ → ℤ × F
  pub set_mode : Access → F → ℤ → ℕ → ℤ × F

-- `user_findOpenUid`
pub user_find_open_uid : List User → ℤ
user_find_open_uid users = first_index (λ i. not (user_is_set users (pos i))) user_max 0

-- `user_get(i)->userName`
abbrev pub user_name_at : NullPage → List User → ℕ → Text
user_name_at null users i = elim (user_get users (pos i)) [
  | none ↦ null.user_name
  | some k ↦ (get_or users k no_user).user_name
]

-- `user_find`
pub user_find : NullPage → List User → Text → ℤ
user_find null users name =
    first_index (λ i. equal_texts (user_name_at null users i) name) user_max 0

abbrev pub update_user : (User → User) → Access → ℕ → Access
update_user f a i = record a { users = set a.users i (f (get_or a.users i no_user)) }

abbrev pub fresh_user : ℤ → User
fresh_user uid = record { uid = uid; gid = uid; user_name = []; password = [] }

-- `user_add` has no check of the range: -1 writes the entry before the table.
pub user_add : Access → ℤ → Bool × Access
user_add a uid =
    if not (user_is_set a.users uid)
    then (elim uid [
      | pos i ↦ (true, record a { users = set a.users i (fresh_user (pos i)) })
      | negsuc n ↦ (true, if n == 0 then record a { below = fresh_user nobody } else a)
    ])
    else (false, a)

-- `user_del`
pub user_del : Access → ℤ → Bool × Access
user_del a uid = elim (user_get a.users uid) [
  | none ↦ (false, a)
  | some i ↦ (true, update_user (λ u. record u { uid = nobody }) a i)
]

-- `user_isValidFormat`: no ':' in it.
pub is_valid_format : Text → Bool
is_valid_format token = not (is_in token 58)

-- `user_setUsername`; an absent name (NULL) is refused like an empty one. There is no result where the
-- `strcpy` runs over the array into what lies behind it.
pub user_set_username : NullPage → Access → ℤ → Text → Option (Bool × Access)
user_set_username null a uid name =
    if not (user_is_set a.users uid)
      || (strlen name == 0)
      || not (is_valid_format name)
      || not (user_find null a.users name ==ℤ nobody)
    then some (false, a)
    else if leb name_size (strlen name)
    then none
    else (elim (user_get a.users uid) [
      | none ↦ some (true, a)
      | some i ↦ some (true, update_user (λ u. record u { user_name = name }) a i)
    ])

-- `user_setPassword`, with no result where the `strcpy` runs over the array.
pub user_set_password : Access → ℤ → Text → Option (Bool × Access)
user_set_password a uid password =
    if not (user_is_set a.users uid) || not (is_valid_format password)
    then some (false, a)
    else if leb password_size (strlen password)
    then none
    else (elim (user_get a.users uid) [
      | none ↦ some (true, a)
      | some i ↦ some (true, update_user (λ u. record u { password = password }) a i)
    ])

-- `user_setGid`
pub user_set_gid : Access → ℤ → ℤ → Bool × Access
user_set_gid a uid gid =
    if not (user_is_set a.users uid) || not (group_is_set a.groups gid)
    then (false, a)
    else (elim (user_get a.users uid) [
      | none ↦ (true, a)
      | some i ↦ (true, update_user (λ u. record u { gid = gid }) a i)
    ])

-- `do_usersetgid`
pub do_usersetgid : NullPage → Access → Text → ℤ → Bool × Access
do_usersetgid null a name gid =
    let uid = user_find null a.users name in
    elim (user_get a.users uid) [ none ↦ (false, a) | some _ ↦ user_set_gid a uid gid ]

-- `user_reset`
pub user_reset : List User → List User
user_reset [] = []
user_reset (u ∷ us) = record u { uid = nobody } ∷ user_reset us

-- `user_login`: the entry, or NULL and an error.
pub user_login : Access → ℤ → Text → Option ℕ × Access
user_login a uid password = elim (user_get a.users uid) [
  | none ↦ (none, record a { errno = e_user_invalid_username })
  | some i ↦
      if equal_texts (get_or a.users i no_user).password password
      then (some i, a)
      else (none, record a { errno = e_user_invalid_password })
]

-- `createUserDir`, both stretches of work in it done under `sudo`.
pub create_user_dir : {F : Type 0} → HomeFs F → Access → F → ℤ → Bool × Access × F
create_user_dir fs a f uid = elim (user_get a.users uid) [
  | none ↦ (false, a, f)
  | some i ↦
      (let user = get_or a.users i no_user in
        let a1 = session_sudo_start (record a { errno = ok }) in
        let (inode, err, f1) = fs.create a1 f user.user_name in
        let a2 = session_sudo_end (record a1 { errno = err }) in
        let a3 = session_sudo_start a2 in
        let (err1, f2) = fs.set_uid a3 f1 inode user.uid in
        let (err2, f3) = fs.set_gid (record a3 { errno = err1 }) f2 inode user.gid in
        let (err3, f4) = fs.set_mode (record a3 { errno = err2 }) f3 inode 0x600 in
        if (inode ==ℤ negsuc 0) && (err ==ℤ e_file_exists)
        then (true, a2, f1)
        else (if err ==ℤ ok
            then (true, session_sudo_end (record a3 { errno = err3 }), f4)
            else (false, a2, f1)))
]

-- What `do_useradd` goes on with behind `user_setPassword` and `user_setUsername`: their answers are
-- dropped.
pub after_password : Option (Bool × Access) → Option Access
after_password none = none
after_password (some (_, a3)) = some a3

pub after_username : ℤ → Text → Option (Bool × Access) → Option Access
after_username uid password none = none
after_username uid password (some (_, a2)) = after_password (user_set_password a2 uid password)

-- `do_useradd` from `user_setGid` on.
pub finish_useradd : {F : Type 0} → HomeFs F → Access → F → ℤ → Bool × Access × F
finish_useradd fs a3 f uid =
    let (grouped, a4) = user_set_gid a3 uid (session_get_egid a3) in
    let (add_ok, a5, f5) = if grouped then create_user_dir fs a4 f uid else (false, a4, f) in
    if add_ok then (true, a5, f5) else (false, (user_del a5 uid).1, f5)

pub after_names : {F : Type 0} → HomeFs F → F → ℤ → Option Access → Option (Bool × Access × F)
after_names fs f uid none = none
after_names fs f uid (some a3) = some (finish_useradd fs a3 f uid)

-- `do_useradd`: of the three answers only the last, to `user_setGid`, is looked at. There is no result
-- where the name or the password runs over its array.
pub do_useradd :
    {F : Type 0} → HomeFs F → NullPage → Access → F → Text → Text → Option (Bool × Access × F)
do_useradd fs null a f name password =
    let uid = user_find_open_uid a.users in
    after_names fs f uid
      (after_username uid password (user_set_username null (user_add a uid).1 uid name))

-- `do_userdel`
pub do_userdel : NullPage → Access → Text → Bool × Access
do_userdel null a name =
    let uid = user_find null a.users name in
    let gid : ℤ = elim (user_get a.users uid) [
      | none ↦ null.user_gid
      | some i ↦ (get_or a.users i no_user).gid
    ] in
    if uid ==ℤ nobody
    then (false, record a { errno = e_invalid_arg })
    else (if session_get_euid a ==ℤ uid
        then (false, record a { errno = e_invalid_arg })
        else (if permission_user_is_owner a uid || permission_group_is_owner a gid
            then user_del a uid
            else (false, record a { errno = e_access })))

-- `user_getName`, with "unknown" for no user.
pub user_get_name : List User → ℤ → Text
user_get_name users uid = elim (user_get users uid) [
  | none ↦ 117 ∷ 110 ∷ 107 ∷ 110 ∷ 111 ∷ 119 ∷ 110 ∷ []
  | some i ↦ (get_or users i no_user).user_name
]

-- `user_string`: the line of the passwd file, empty for no user.
pub user_string : List User → ℤ → Text
user_string users uid = elim (user_get users uid) [
  | none ↦ []
  | some i ↦
      (let u = get_or users i no_user in
        itoa u.uid ++ (58 ∷ itoa u.gid) ++ (58 ∷ u.user_name) ++ (58 ∷ u.password))
]

-- `calluser_t`
pub record CallUser : Type 0 where
  pub uid : ℤ
  pub gid : ℤ
  pub user_name : Text

-- What `do_userlist` writes of an entry, with "no-user" for one that is free.
pub call_user : List User → ℕ → CallUser
call_user users i = elim (user_get users (pos i)) [
  | none ↦ record {
    uid = nobody;
    gid = nobody;
    user_name = 110 ∷ 111 ∷ 45 ∷ 117 ∷ 115 ∷ 101 ∷ 114 ∷ [];
  }
  | some k ↦
      (let u = get_or users k no_user in
        record { uid = u.uid; gid = u.gid; user_name = u.user_name })
]

-- `do_userlist`, with `n` entries left from `i` on.
pub userlist_from : List User → ℕ → ℕ → List CallUser
userlist_from users zero i = []
userlist_from users (suc n) i = call_user users i ∷ userlist_from users n (i + 1)

pub do_userlist : List User → List CallUser
do_userlist users = userlist_from users user_max 0
