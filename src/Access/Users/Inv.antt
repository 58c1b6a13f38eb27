-- ===== src/Access/Users/Inv.antt =====
-- The table of users stays well formed.
use so2c2011tp.Prelude.{
  ℕ, zero, suc, ap, ◌<◌, ◌≡◌, ◌≢◌, ◌⊎◌, inl, inr, refl, sym, subst, ◌∙◌, Bool, true, none, some,
  List, [], ◌∷◌, ◌==◌, length, get_or, set, get_or-set_self, get_or-set_ne, length-set, arith,
  Bool-cases, ==_iff,
}
use so2c2011tp.Prelude.Int.{pos, ==ℤ_iff}
use so2c2011tp.Text.{Text, equal_texts, strlen}
use so2c2011tp.Text.Compare.{not_equal_texts}
use so2c2011tp.Access.State.{User, Access, NullPage, no_user, nobody, first_index_lem, at, nowhere}
use so2c2011tp.Access.Users.{HomeFs, user_name_at, user_find, fresh_user, do_useradd, user_reset}
use so2c2011tp.Access.Users.Laws.{entry, accepts, get_entry}
use so2c2011tp.Access.Users.Add.{
  made_user, Added, table_full, no_such_group, no_home, made, do_useradd_lem,
}

-- Each entry in use holds its own index, and no two of them have the same name, unless it is empty.
pub record IsValid (users : List User) : Type 0 where
  pub entries : length users ≡ 20
  pub own : (i : ℕ) → i < 20 → ((entry users i).uid ≡ nobody) ⊎ ((entry users i).uid ≡ pos i)
  pub unique :
      (i j : ℕ)
      → i < 20
      → j < 20
      → i ≢ j
      → (entry users i).uid ≢ nobody
      → (entry users j).uid ≢ nobody
      → (entry users i).user_name ≢ []
      → (entry users i).user_name ≢ (entry users j).user_name

-- A new entry keeps the table well formed if its name is new.
pub set-IsValid :
    (users : List User) (i : ℕ) (g : User)
    → IsValid users
    → i < 20
    → (g.uid ≡ nobody) ⊎ (g.uid ≡ pos i)
    → (g.uid ≢ nobody
        → g.user_name ≢ []
        → (j : ℕ) → j < 20
        → j ≢ i
        → (entry users j).uid ≢ nobody
        → (entry users j).user_name ≢ g.user_name)
    → IsValid (set users i g)
set-IsValid users i g v hi own new = record {
  entries = length-set users i g ∙ v.entries;
  own = λ j p. elim (Bool-cases (i == j)) [
    | inl same ↦ rw (← (==_iff i j).0 same, here) own
    | inr other ↦
        rw (get_or-set_ne users {i = i} {j = j} g no_user (ground (arith, other))) (v.own j p)
  ];
  unique = λ j k p q n. elim (Bool-cases (i == j)) [
    | inl ij ↦
        rw (← (==_iff i j).0 ij, here, away k (λ e. n (sym ((==_iff i j).0 ij) ∙ e)))
          (λ a b c e. new a c k q (λ z. n (sym ((==_iff i j).0 ij) ∙ sym z)) b (sym e))
    | inr far ↦ (elim (Bool-cases (i == k)) [
      | inl ik ↦
          rw (← (==_iff i k).0 ik, here, away j (λ e. n (sym e ∙ (==_iff i k).0 ik)))
            (λ a b c e. new b (λ z. c (e ∙ z)) j p (λ z. n (z ∙ (==_iff i k).0 ik)) a e)
      | inr farther ↦
          rw (away j (ground (arith, far)), away k (ground (arith, farther))) (v.unique j k p q n)
    ])
  ];
}
  where
    away : (j : ℕ) → i ≢ j → get_or (set users i g) j no_user ≡ entry users j
    away j n = get_or-set_ne users {i = i} {j = j} g no_user n

    here : get_or (set users i g) i no_user ≡ g
    here = get_or-set_self users i g no_user (omega (arith, v.entries))

-- An accepted name is no name of an entry in use.
accepted_is_new :
    (null : NullPage) (users : List User) (name : Text)
    → accepts null users name ≡ true
    → (j : ℕ) → j < 20
    → (entry users j).uid ≢ nobody
    → (entry users j).user_name ≢ name
unfolding user_find
accepted_is_new null users name ok j p used =
    elim (first_index_lem (λ i. equal_texts (user_name_at null users i) name) 20) [
      | at i e hi hit before ↦ absurd (ground (arith, ok, e))
      | nowhere e all ↦
          not_equal_texts _ _
            (ground (arith, all j p, get_entry users j p, ==ℤ_iff (entry users j).uid nobody, used))
    ]

made-IsValid :
    (null : NullPage) (a : Access) (i : ℕ) (name password : Text)
    → IsValid a.users
    → i < 20
    → IsValid (set a.users i (made_user null a i name password))
made-IsValid null a i name password v hi =
    let added = set a.users i (fresh_user (pos i)) in
    set-IsValid a.users i (made_user null a i name password) v hi (inr refl)
      (elim (Bool-cases (accepts null added name)) [
        | inl taken ↦ rw taken (λ _ _ j p n used.
            let same : get_or added j no_user ≡ entry a.users j =
              get_or-set_ne a.users {i = i} {j = j} (fresh_user (pos i)) no_user (λ e. n (sym e)) in
            subst (λ u. u.user_name ≢ name) same
              (accepted_is_new null added name taken j p
                (subst (λ u. u.uid ≢ nobody) (sym same) used)))
        | inr empty ↦ rw empty (λ _ c. absurd (c refl))
      ])

Added-IsValid :
    {F : Type 0} (fs : HomeFs F) (null : NullPage) (a : Access) (f : F) (name password : Text)
    {out : Bool × Access × F}
    → IsValid a.users
    → Added fs null a f name password out
    → IsValid out.1.users
Added-IsValid fs null a f name password v (table_full _) = v
Added-IsValid fs null a f name password v (no_such_group i hi _ _ _) =
    set-IsValid a.users i _ v hi (inl refl) (λ used. absurd (used refl))
Added-IsValid fs null a f name password v (no_home i hi _ _ _ _ _ _) =
    set-IsValid a.users i _ v hi (inl refl) (λ used. absurd (used refl))
Added-IsValid fs null a f name password v (made i hi _ _ _ _ _ _) =
    made-IsValid null a i name password v hi

-- On a well formed table, called outside `sudo` with a name of less than 32 and a password of less
-- than 16 characters, `do_useradd` returns and leaves the table well formed, whether it succeeds or not: an entry in use holds its
-- own index, and no two users share a name other than the empty one.
pub do_useradd-IsValid :
    {F : Type 0} (fs : HomeFs F) (null : NullPage) (a : Access) (f : F) (name password : Text)
    → IsValid a.users
    → a.sudo ≡ none
    → strlen name < 32
    → strlen password < 16
    → (out : Bool × Access × F) × (do_useradd fs null a f name password ≡ some out)
      × IsValid out.1.users
do_useradd-IsValid fs null a f name password v idle ns ps =
    let (out, e, added) = do_useradd_lem fs null a f name password v.entries idle ns ps in
    (out, e, Added-IsValid fs null a f name password v added)

reset_unused : (xs : List User) (i : ℕ) → (entry (user_reset xs) i).uid ≡ nobody
unfolding user_reset
reset_unused [] i = refl
reset_unused (x ∷ xs) zero = refl
reset_unused (x ∷ xs) (suc i) = reset_unused xs i

length-user_reset : (xs : List User) → length (user_reset xs) ≡ length xs
unfolding user_reset
length-user_reset [] = refl
length-user_reset (x ∷ xs) = ap suc (length-user_reset xs)

-- The table at the start is well formed, whatever was in it.
pub user_reset-IsValid : (xs : List User) → length xs ≡ 20 → IsValid (user_reset xs)
user_reset-IsValid xs full = record {
  entries = length-user_reset xs ∙ full;
  own = λ i p. inl (reset_unused xs i);
  unique = λ i j p q n a. absurd (a (reset_unused xs i));
}
