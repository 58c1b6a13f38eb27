-- ===== src/Access/Groups.antt =====
-- src/access/group.c: the table of groups.
pub mod Laws
pub mod Inv
pub mod Delete
use so2c2011tp.Prelude.{
  zero, suc, ◌+◌, ◌++◌, ℕ, ◌-◌, ◌<◌, ◌≡◌, ◌≢◌, Bool, true, false, not, ◌&&◌, ◌||◌, Option, none,
  some, List, [], ◌∷◌, ltb, leb, ◌==◌, get_or, set, if◌then◌else◌,
}
use so2c2011tp.Prelude.Int.{ℤ, pos, negsuc, ◌==ℤ◌}
use so2c2011tp.Text.{Text, equal_texts, is_in, strlen}
use so2c2011tp.Text.Numbers.{itoa}
use so2c2011tp.Access.State.{
  Group, Access, NullPage, no_group, nobody, group_max, name_size, password_size, group_is_set,
  group_get, first_index, e_invalid_arg, e_access,
}
use so2c2011tp.Access.Session.{session_get_egid}
use so2c2011tp.Access.Permission.{permission_group_is_owner}

-- `group_findOpenGid`
pub group_find_open_gid : List Group → ℤ
group_find_open_gid groups = first_index (λ i. not (group_is_set groups (pos i))) group_max 0

-- `group_get(i)->groupName`
abbrev pub group_name_at : NullPage → List Group → ℕ → Text
group_name_at null groups i = elim (group_get groups (pos i)) [
  | none ↦ null.group_name
  | some k ↦ (get_or groups k no_group).group_name
]

-- `group_find`
pub group_find : NullPage → List Group → Text → ℤ
group_find null groups name =
    first_index (λ i. equal_texts (group_name_at null groups i) name) group_max 0

abbrev pub update_group : (Group → Group) → List Group → ℕ → List Group
update_group f groups i = set groups i (f (get_or groups i no_group))

-- `group_add`
pub group_add : List Group → ℤ → Bool × List Group
group_add groups (negsuc _) = (false, groups)
group_add groups (pos i) =
    if ltb i group_max && not (group_is_set groups (pos i))
    then (true, set groups i (record { gid = pos i; group_name = []; password = [] }))
    else (false, groups)

-- `group_del`
pub group_del : List Group → ℤ → Bool × List Group
group_del groups gid = elim (group_get groups gid) [
  | none ↦ (false, groups)
  | some i ↦ (true, update_group (λ g. record g { gid = nobody }) groups i)
]

-- `group_isValidFormat`: no ':' in it.
pub is_valid_format : Text → Bool
is_valid_format token = not (is_in token 58)

-- `group_setGroupname`; an absent name (NULL) is refused like an empty one. There is no result
-- where the `strcpy` runs over the array into what lies behind it.
pub group_set_groupname : NullPage → List Group → ℤ → Text → Option (Bool × List Group)
group_set_groupname null groups gid name =
    if not (group_is_set groups gid)
      || (strlen name == 0)
      || not (is_valid_format name)
      || not (group_find null groups name ==ℤ nobody)
    then some (false, groups)
    else if leb name_size (strlen name)
    then none
    else (elim (group_get groups gid) [
      | none ↦ some (false, groups)
      | some i ↦ some (true, update_group (λ g. record g { group_name = name }) groups i)
    ])

-- `group_setPassword`, with no result where the `strcpy` runs over the array.
pub group_set_password : List Group → ℤ → Text → Option (Bool × List Group)
group_set_password groups gid password =
    if not (group_is_set groups gid) || not (is_valid_format password)
    then some (false, groups)
    else if leb password_size (strlen password)
    then none
    else (elim (group_get groups gid) [
      | none ↦ some (false, groups)
      | some i ↦ some (true, update_group (λ g. record g { password = password }) groups i)
    ])

-- `group_reset`
pub group_reset : List Group → List Group
group_reset [] = []
group_reset (g ∷ gs) = record g { gid = nobody } ∷ group_reset gs

-- What `do_groupadd` goes on with behind `group_setPassword` and `group_setGroupname`: whether the name
-- was accepted is overwritten by whether the password was.
pub after_password : ℤ → Option (Bool × List Group) → Option (Bool × List Group)
after_password gid none = none
after_password gid (some (add_ok, secured)) =
    some (if add_ok then (true, secured) else (false, (group_del secured gid).1))

pub after_groupname : ℤ → Text → Option (Bool × List Group) → Option (Bool × List Group)
after_groupname gid password none = none
after_groupname gid password (some (_, named)) =
    after_password gid (group_set_password named gid password)

-- `do_groupadd`, with no result where the name or the password runs over its array.
pub do_groupadd : NullPage → List Group → Text → Text → Option (Bool × List Group)
do_groupadd null groups name password =
    let gid = group_find_open_gid groups in
    after_groupname gid password (group_set_groupname null (group_add groups gid).1 gid name)

-- `do_groupdel`
pub do_groupdel : NullPage → Access → Text → Bool × Access
do_groupdel null a name =
    let gid = group_find null a.groups name in
    let (deleted, groups) = group_del a.groups gid in
    if gid ==ℤ nobody
    then (false, record a { errno = e_invalid_arg })
    else (if session_get_egid a ==ℤ gid
        then (false, record a { errno = e_invalid_arg })
        else (if permission_group_is_owner a gid
            then (deleted, record a { groups = groups })
            else (false, record a { errno = e_access })))

-- `group_login`: the group, or NULL and an error.
pub group_login : Access → ℤ → Text → Option ℕ × Access
group_login a gid password = elim (group_get a.groups gid) [
  | none ↦ (none, record a { errno = negsuc 0 })
  | some i ↦
      if equal_texts (get_or a.groups i no_group).password password
      then (some i, a)
      else (none, record a { errno = negsuc 1 })
]

-- `group_getName`, with "unknown" for no group.
pub group_get_name : List Group → ℤ → Text
group_get_name groups gid = elim (group_get groups gid) [
  | none ↦ 117 ∷ 110 ∷ 107 ∷ 110 ∷ 111 ∷ 119 ∷ 110 ∷ []
  | some i ↦ (get_or groups i no_group).group_name
]

-- `group_string`, empty for no group.
pub group_string : List Group → ℤ → Text
group_string groups gid = elim (group_get groups gid) [
  | none ↦ []
  | some i ↦
      (let g = get_or groups i no_group in itoa g.gid ++ (58 ∷ g.group_name) ++ (58 ∷ g.password))
]

-- `callgroup_t`
pub record CallGroup : Type 0 where
  pub gid : ℤ
  pub group_name : Text

-- What `do_grouplist` writes of an entry, with "no-group" for one that is free.
pub call_group : List Group → ℕ → CallGroup
call_group groups i = elim (group_get groups (pos i)) [
  | none ↦ record { gid = nobody; group_name = 110 ∷ 111 ∷ 45 ∷ 103 ∷ 114 ∷ 111 ∷ 117 ∷ 112 ∷ [] }
  | some k ↦ (let g = get_or groups k no_group in record { gid = g.gid; group_name = g.group_name })
]

-- `do_grouplist`, with `n` entries left from `i` on.
pub grouplist_from : List Group → ℕ → ℕ → List CallGroup
grouplist_from groups zero i = []
grouplist_from groups (suc n) i = call_group groups i ∷ grouplist_from groups n (i + 1)

pub do_grouplist : List Group → List CallGroup
do_grouplist groups = grouplist_from groups group_max 0
