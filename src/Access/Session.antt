-- ===== src/Access/Session.antt =====
-- src/session.c: the current user, and `sudo` around the calls that need it.
use so2c2011tp.Prelude.{ℕ, ◌≡◌, ◌⊎◌, Bool, true, false, Option, none, some, get_or, arith}
use so2c2011tp.Prelude.Int.{ℤ}
use so2c2011tp.Text.{Text}
use so2c2011tp.Access.State.{Access, no_user, nobody, super_user, user_get, user_is_set}

-- `session_getEuid`: with nobody logged in, the kernel acts as the super user.
unfoldable pub session_get_euid : Access → ℤ
session_get_euid a = elim a.current [ none ↦ super_user | some i ↦ (get_or a.users i no_user).uid ]

unfoldable pub session_get_egid : Access → ℤ
session_get_egid a = elim a.current [ none ↦ super_user | some i ↦ (get_or a.users i no_user).gid ]

pub session_is_logged_in : Access → Bool
session_is_logged_in a = elim a.current [ none ↦ false | some _ ↦ true ]

-- `session_getName`
pub session_get_name : Access → Option Text
session_get_name a = elim a.current [
  | none ↦ none
  | some i ↦ some (get_or a.users i no_user).user_name
]

pub session_logout : Access → Access
session_logout a = record a { current = none }

unfoldable pub session_sudo_start : Access → Access
session_sudo_start a = elim a.sudo [
  | some _ ↦ a
  | none ↦ (elim a.current [
    | none ↦ a
    | some i ↦ record a { sudo = some i; current = user_get a.users super_user }
  ])
]

unfoldable pub session_sudo_end : Access → Access
session_sudo_end a = elim a.sudo [ none ↦ a | some i ↦ record a { current = some i; sudo = none } ]

-- Work done under `sudo` that leaves the session alone ends in the session that it began in, whatever
-- it does to the tables and to `errno`.
pub sudo_restores :
    (a b : Access)
    → a.sudo ≡ none
    → b.current ≡ (session_sudo_start a).current
    → b.sudo ≡ (session_sudo_start a).sudo
    → ((session_sudo_end b).current ≡ a.current) × ((session_sudo_end b).sudo ≡ a.sudo)
unfolding session_sudo_start session_sudo_end
sudo_restores a b idle cur su = ground (arith, idle, cur, su)

-- Between the two calls a user who is logged in acts as the super user, even if the account of the
-- super user has been deleted.
pub sudo_is_super :
    (a : Access) (i : ℕ)
    → a.sudo ≡ none
    → a.current ≡ some i
    → ((get_or a.users 0 no_user).uid ≡ super_user) ⊎ ((get_or a.users 0 no_user).uid ≡ nobody)
    → session_get_euid (session_sudo_start a) ≡ super_user
unfolding session_sudo_start session_get_euid user_get user_is_set
sudo_is_super a i idle cur root = ground (arith, idle, cur, root)
