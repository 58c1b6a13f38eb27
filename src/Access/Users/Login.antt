-- ===== src/Access/Users/Login.antt =====
-- Who can log in after a user was added.
use so2c2011tp.Prelude.{
  ℕ, ◌<◌, ◌≤◌, ◌≡◌, ◌≢◌, refl, ap, sym, subst, ◌∙◌, inl, inr, Bool, true, false, not, none, some,
  List, [], ltb, ◌==◌, ==_iff, length, set, get_or-set_ne, if◌then◌else◌, arith, Bool-cases,
}
use so2c2011tp.Prelude.Int.{ℤ, pos, ◌==ℤ◌, ==ℤ_iff}
use so2c2011tp.Text.{Text, equal_texts, strlen}
use so2c2011tp.Text.Compare.{equal_texts_self}
use so2c2011tp.Access.State.{
  User, Access, NullPage, no_user, nobody, user_is_set, first_index_lem, at, nowhere,
}
use so2c2011tp.Access.Users.{
  HomeFs, is_valid_format, user_login, do_useradd, user_find_open_uid, user_find, user_name_at,
  fresh_user,
}
use so2c2011tp.Access.Users.Laws.{entry, with_user, accepts, get_entry, put_get}
use so2c2011tp.Access.Users.Add.{
  made_user, Added, table_full, no_such_group, no_home, made, do_useradd_lem,
}

login_at :
    (a : Access) (i : ℕ) (u : User) (err : ℤ)
    → i < 20
    → length a.users ≡ 20
    → (u.uid ==ℤ nobody) ≡ false
    → user_login (record (with_user a i u) { errno = err }) (pos i) u.password
      ≡ (some i, record (with_user a i u) { errno = err })
unfolding user_login
login_at a i u err hi full used = ground (
  arith,
  get_entry (set a.users i u) i hi,
  put_get a i hi full u used,
  used,
  equal_texts_self u.password,
)

-- The password that an added user logs in with.
abbrev pub kept_password : Text → Text
kept_password password = if is_valid_format password then password else []

-- The entry that `do_useradd` takes is the first that is free.
open_entry :
    (users : List User) (i k : ℕ)
    → user_find_open_uid users ≡ pos i
    → k < 20
    → user_is_set users (pos k) ≡ false
    → ((j : ℕ) → j < k → user_is_set users (pos j) ≡ true)
    → k ≡ i
unfolding user_find_open_uid
open_entry users i k e hk free before =
    elim (first_index_lem (λ j. not (user_is_set users (pos j))) 20) [
      | at n found hn hit first ↦
          (let same : n ≡ i = ground (arith, e, found) in
            let not_after : k ≤ n = elim (Bool-cases (ltb n k)) [
              | inl less ↦ absurd (ground (arith, hit, before n (ground (arith, less))))
              | inr more ↦ ground (arith, more)
            ] in
            let not_before : n ≤ k = elim (Bool-cases (ltb k n)) [
              | inl less ↦ absurd (ground (arith, free, first k (ground (arith, less))))
              | inr more ↦ ground (arith, more)
            ] in
            omega (arith, same))
      | nowhere none_free _ ↦ absurd (ground (arith, e, none_free))
    ]

-- The names of the other entries do not depend on what an entry holds.
other_name :
    (null : NullPage) (users : List User) (i k : ℕ) (u v : User)
    → k < 20
    → i ≢ k
    → user_name_at null (set users i u) k ≡ user_name_at null (set users i v) k
other_name null users i k u v hk apart = ground (
  arith,
  get_entry (set users i u) k hk,
  get_entry (set users i v) k hk,
  get_or-set_ne users {i = i} {j = k} u no_user apart,
  get_or-set_ne users {i = i} {j = k} v no_user apart,
)

-- A name under which no user was found finds the entry that it is put into.
find_named :
    (null : NullPage) (a : Access) (i : ℕ) (u v : User)
    → i < 20
    → length a.users ≡ 20
    → (u.uid ==ℤ nobody) ≡ false
    → user_find null (set a.users i v) u.user_name ≡ nobody
    → user_find null (set a.users i u) u.user_name ≡ pos i
unfolding user_find
find_named null a i u v hi full used absent =
    let here : user_name_at null (set a.users i u) i ≡ u.user_name =
      ground (arith, get_entry (set a.users i u) i hi, put_get a i hi full u used, used) in
    elim (first_index_lem (λ j. equal_texts (user_name_at null (set a.users i u) j) u.user_name)
      20) [
        | at k e hk hit _ ↦ (elim (Bool-cases (i == k)) [
          | inl same ↦ e ∙ ap pos (sym ((==_iff i k).0 same))
          | inr apart ↦
              (let elsewhere = other_name null a.users i k u v hk (ground (arith, apart)) in
                elim (first_index_lem
                  (λ j. equal_texts (user_name_at null (set a.users i v) j) u.user_name) 20) [
                    | at n e' _ _ _ ↦ absurd (ground (arith, absent, e'))
                    | nowhere _ all ↦ absurd (
                        ground
                          (arith, all k hk, hit, ap (λ n. equal_texts n u.user_name) elsewhere))
                  ])
        ])
        | nowhere _ all ↦ absurd (
            ground (
              arith,
              all i hi,
              ap (λ n. equal_texts n u.user_name) here,
              equal_texts_self u.user_name,
            ))
      ]

module _ {F : Type 0} (fs : HomeFs F) (null : NullPage) (a : Access) (f : F)
    (name password : Text) where
  -- What the new user finds.
  abbrev CanLogIn : ℕ → Access → Type 0
  CanLogIn i a' =
      ((entry a'.users i).user_name ≡ name)
      × (user_find null a'.users name ≡ pos i)
      × (user_login a' (pos i) (kept_password password) ≡ (some i, a'))

  login-Added :
      (i : ℕ) {out : Bool × Access × F}
      → length a.users ≡ 20
      → user_find_open_uid a.users ≡ pos i
      → accepts null (set a.users i (fresh_user (pos i))) name ≡ true
      → out.0 ≡ true
      → Added fs null a f name password out
      → CanLogIn i out.1
  login-Added i full first good e (table_full _) = absurd (ground (arith, e))
  login-Added i full first good e (no_such_group _ _ _ _ _) = absurd (ground (arith, e))
  login-Added i full first good e (no_home _ _ _ _ _ _ _ _) = absurd (ground (arith, e))
  login-Added i full first good e (made k hk free before _ _ err f') =
      let same : i ≡ k = sym (open_entry a.users i k first hk free before) in
      let good' : accepts null (set a.users k (fresh_user (pos k))) name ≡ true =
        subst (λ n. accepts null (set a.users n (fresh_user (pos n))) name ≡ true) same good in
      let u = made_user null a k name password in
      let named : u.user_name ≡ name = rw good' refl in
      let absent : user_find null (set a.users k (fresh_user (pos k))) u.user_name ≡ nobody =
        ap (user_find null (set a.users k (fresh_user (pos k)))) named
        ∙ (==ℤ_iff _ nobody).0 (ground (arith, good')) in
      subst (λ n. CanLogIn n (record (with_user a k u) { errno = err })) (sym same)
        (
          ap (λ x. x.user_name) (put_get a k hk full u refl) ∙ named,
          ap (user_find null (set a.users k u)) (sym named)
              ∙ find_named null a k u (fresh_user (pos k)) hk full refl absent,
          login_at a k u err hk full refl,
        )

-- On a table of twenty entries, called outside `sudo`, with a name of less than 32 and a password of
-- less than 16 characters, where `i` is the first free entry and the name is not empty, has no ':' and
-- is not found in the table in which that entry has just been taken: if `do_useradd` has answered true,
-- entry `i` has the name, the name finds this entry, and the user logs in there with the password, or,
-- if that has a ':', with the empty one, for the account is made all the same.
pub user_login-do_useradd :
    {F : Type 0} (fs : HomeFs F) (null : NullPage) (a a' : Access) (f f' : F) (name password : Text)
    (i : ℕ)
    → length a.users ≡ 20
    → a.sudo ≡ none
    → strlen name < 32
    → strlen password < 16
    → user_find_open_uid a.users ≡ pos i
    → accepts null (set a.users i (fresh_user (pos i))) name ≡ true
    → do_useradd fs null a f name password ≡ some (true, a', f')
    → ((entry a'.users i).user_name ≡ name)
      × (user_find null a'.users name ≡ pos i)
      × (user_login a' (pos i) (kept_password password) ≡ (some i, a'))
user_login-do_useradd fs null a a' f f' name password i full idle ns ps first good e =
    let (out, e', added) = do_useradd_lem fs null a f name password full idle ns ps in
    let same : out ≡ (true, a', f') = cc (e, e') in
    subst (λ (r : Bool × Access × _). CanLogIn fs null a f name password i r.1) same
      (login-Added fs null a f name password i full first good (ap (λ r. r.0) same) added)
