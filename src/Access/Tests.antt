-- ===== src/Access/Tests.antt =====
-- The tables on a small system: root in both tables, user 1 in group 1, logged in.
use so2c2011tp.Prelude.{
  ℕ, ◌+◌, ◌≡◌, ◌↔◌, refl, Bool, true, some, none, List, [], ◌∷◌, replicate, arith,
}
use so2c2011tp.Prelude.Int.{pos}
use so2c2011tp.Text.{Text, strlen}
use so2c2011tp.Access.State.{User, Group, Access, NullPage, no_user, no_group, ok}
use so2c2011tp.Access.Permission.{
  Node, Granted, permission_file_has_access, permission_file_has_access_lem,
}
use so2c2011tp.Access.Groups.{do_groupadd, do_groupdel, group_reset}
use so2c2011tp.Access.Groups.Laws as GroupLaws
use so2c2011tp.Access.Groups.Laws.{do_groupadd_lem}
use so2c2011tp.Access.Groups.Delete as GroupDelete
use so2c2011tp.Access.Groups.Delete.{do_groupdel_lem, do_groupdel-IsValid}
use so2c2011tp.Access.Users.{HomeFs, do_useradd, do_userdel, user_reset}
use so2c2011tp.Access.Users.Add as UserAdd
use so2c2011tp.Access.Users.Inv as UserInv
use so2c2011tp.Access.Users.Inv.{do_useradd-IsValid, user_reset-IsValid}
use so2c2011tp.Access.Users.Delete as UserDelete
use so2c2011tp.Access.Users.Delete.{do_userdel_lem, do_userdel-IsValid}

abbrev pub null_page : NullPage
null_page = record { user_name = 83 ∷ []; user_gid = pos 83; group_name = 83 ∷ [] }

abbrev pub root_user : User
root_user = record { uid = pos 0; gid = pos 0; user_name = 114 ∷ []; password = 112 ∷ [] }

abbrev pub other_user : User
other_user = record { uid = pos 1; gid = pos 1; user_name = 97 ∷ []; password = [] }

abbrev pub system : Access
system = record {
  users = root_user ∷ other_user ∷ replicate 18 no_user;
  groups =
      record { gid = pos 0; group_name = 114 ∷ []; password = [] }
      ∷ record { gid = pos 1; group_name = 97 ∷ []; password = [] }
      ∷ replicate 13 no_group;
  below = no_user;
  current = some 1;
  sudo = none;
  errno = ok;
}

-- A file system that makes every directory, and counts.
abbrev pub homes : HomeFs ℕ
homes = record {
  create = λ a f name. (pos f, ok, f + 1);
  set_uid = λ a f inode uid. (a.errno, f);
  set_gid = λ a f inode gid. (a.errno, f);
  set_mode = λ a f inode mode. (a.errno, f);
}

abbrev pub bob : Text
bob = 98 ∷ 111 ∷ 98 ∷ []

abbrev pub colon : Text
colon = 58 ∷ []

abbrev node : Node
node = record { mask = 0x8640; uid = pos 0; gid = pos 1 }

permission_file_has_access_lem_example :
    (permission_file_has_access null_page system node 4 ≡ true) ↔ Granted null_page system node 4
permission_file_has_access_lem_example =
    permission_file_has_access_lem null_page system node 4 (omega arith)

do_groupadd_lem_example :
    (out : Bool × List Group) × (do_groupadd null_page system.groups bob colon ≡ some out)
    × GroupLaws.Added null_page system.groups bob colon out
unfolding strlen
do_groupadd_lem_example =
    do_groupadd_lem null_page system.groups bob colon refl (omega arith) (omega arith)

do_groupdel_lem_example :
    GroupDelete.Deleted null_page system bob (do_groupdel null_page system bob)
do_groupdel_lem_example = do_groupdel_lem null_page system bob

do_userdel_lem_example : UserDelete.Deleted null_page system bob (do_userdel null_page system bob)
do_userdel_lem_example = do_userdel_lem null_page system bob

-- A system with empty tables, and nobody logged in.
abbrev reset_system : Access
reset_system = record {
  users = user_reset (replicate 20 root_user);
  groups = group_reset (replicate 15 no_group);
  below = no_user;
  current = none;
  sudo = none;
  errno = ok;
}

do_useradd-IsValid_example :
    (out : Bool × Access × ℕ) × (do_useradd homes null_page reset_system 5 bob bob ≡ some out)
    × UserInv.IsValid out.1.users
unfolding strlen
do_useradd-IsValid_example =
    do_useradd-IsValid homes null_page reset_system 5 bob bob
      (user_reset-IsValid (replicate 20 root_user) refl) refl (omega arith) (omega arith)
