-- ===== src/Access/State.antt =====
-- include/access/user.h, include/access/group.h: the static tables and the pointers into them.
use so2c2011tp.Prelude.{
  ℕ, zero, suc, ◌+◌, ◌<◌, ◌≡◌, subst, ◌∙◌, ap, inl, inr, refl, Bool, true, false, not, ◌&&◌, Option,
  none, some, List, [], ltb, ◌==◌, if◌then◌else◌, get_or, arith, Bool-cases, ==_iff,
}
use so2c2011tp.Prelude.Int.{ℤ, pos, negsuc, ◌==ℤ◌}
use so2c2011tp.Text.{Text}

-- `NO_USER` and `NO_GROUP`
abbrev pub nobody : ℤ
nobody = negsuc 0

abbrev pub super_user : ℤ
super_user = pos 0

abbrev pub user_max : ℕ
user_max = 20

abbrev pub group_max : ℕ
group_max = 15

-- The arrays `userName` and `groupName` have 32 characters and both `password` have 16, with their NUL.
abbrev pub name_size : ℕ
name_size = 32

abbrev pub password_size : ℕ
password_size = 16

-- `user_t`; a field that is an array of characters holds the string in it, which is shorter.
pub record User : Type 0 where
  pub uid : ℤ
  pub gid : ℤ
  pub user_name : Text
  pub password : Text

-- `group_t`, likewise.
pub record Group : Type 0 where
  pub gid : ℤ
  pub group_name : Text
  pub password : Text

abbrev pub no_user : User
no_user = record { uid = nobody; gid = pos 0; user_name = []; password = [] }

abbrev pub no_group : Group
no_group = record { gid = nobody; group_name = []; password = [] }

-- `current` and `sudo` are `currentUser` and `sudoUser`, each NULL or a pointer to an entry of
-- `users`. `below` is the memory of the size of an entry that lies before `users`.
pub record Access : Type 0 where
  pub users : List User
  pub groups : List Group
  pub below : User
  pub current : Option ℕ
  pub sudo : Option ℕ
  pub errno : ℤ

-- What the page at address 0, which is mapped, holds where the code reads a field through NULL.
pub record NullPage : Type 0 where
  pub user_name : Text
  pub user_gid : ℤ
  pub group_name : Text

abbrev pub ok : ℤ
ok = pos 0

abbrev pub e_user_invalid_username : ℤ
e_user_invalid_username = negsuc 0

abbrev pub e_user_invalid_password : ℤ
e_user_invalid_password = negsuc 1

abbrev pub e_file_exists : ℤ
e_file_exists = negsuc 2

abbrev pub e_invalid_arg : ℤ
e_invalid_arg = negsuc 5

abbrev pub e_access : ℤ
e_access = negsuc 6

-- `user_isSet`
unfoldable pub user_is_set : List User → ℤ → Bool
user_is_set users (pos i) = ltb i user_max && not ((get_or users i no_user).uid ==ℤ nobody)
user_is_set users (negsuc _) = false

-- `group_isSet`
unfoldable pub group_is_set : List Group → ℤ → Bool
group_is_set groups (pos i) = ltb i group_max && not ((get_or groups i no_group).gid ==ℤ nobody)
group_is_set groups (negsuc _) = false

-- `user_get`: the index of the entry, or NULL.
unfoldable pub user_get : List User → ℤ → Option ℕ
user_get users (pos i) = if user_is_set users (pos i) then some i else none
user_get users (negsuc _) = none

unfoldable pub group_get : List Group → ℤ → Option ℕ
group_get groups (pos i) = if group_is_set groups (pos i) then some i else none
group_get groups (negsuc _) = none

-- `for (i = 0; i < max; ++i) if (found(i)) return i; return -1;`, with `n` indices left.
unfoldable pub first_index : (ℕ → Bool) → ℕ → ℕ → ℤ
first_index found zero i = negsuc 0
first_index found (suc n) i =
    let rest = first_index found n (i + 1) in if found i then pos i else rest

-- How such a loop ends.
pub data Search (found : ℕ → Bool) (n : ℕ) (r : ℤ) : Type 0 where
  at :
      (i : ℕ)
      → r ≡ pos i
      → i < n
      → found i ≡ true
      → ((j : ℕ) → j < i → found j ≡ false)
      → Search found n r
  nowhere : r ≡ negsuc 0 → ((j : ℕ) → j < n → found j ≡ false) → Search found n r

first_index_from :
    (found : ℕ → Bool) (n i : ℕ)
    → ((j : ℕ) → j < i → found j ≡ false)
    → Search found (i + n) (first_index found n i)
unfolding first_index
first_index_from found zero i before = nowhere refl (λ j p. before j (omega arith))
first_index_from found (suc n) i before = elim (Bool-cases (found i)) [
  | inl hit ↦ at i (rw hit) (omega arith) hit before
  | inr miss ↦
      (let upto : (j : ℕ) → j < i + 1 → found j ≡ false = λ j p. elim (Bool-cases (j == i)) [
        | inl last ↦ ap found ((==_iff j i).0 last) ∙ miss
        | inr other ↦ before j (ground (arith, other))
      ] in
        let one_more : i + suc n ≡ i + 1 + n = omega arith in
        rw (miss, one_more) (first_index_from found n (i + 1) upto))
]

pub first_index_lem : (found : ℕ → Bool) (n : ℕ) → Search found n (first_index found n 0)
first_index_lem found n =
    subst (λ k. Search found k (first_index found n 0)) {x = 0 + n} {y = n} (omega arith)
      (first_index_from found n 0 (λ j p. absurd (omega arith)))
