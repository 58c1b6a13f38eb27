-- ===== src/Access/Groups/Inv.antt =====
-- The table of groups stays well formed, and what deleting a group does.
use so2c2011tp.Prelude.{
  ℕ, zero, suc, ◌<◌, ◌≡◌, ◌≢◌, ◌⊎◌, inl, inr, refl, sym, ap, subst, ◌∙◌, Bool, true, some, List, [],
  ◌∷◌, ◌==◌, length, get_or, set, get_or-set_self, get_or-set_ne, length-set, arith, Bool-cases,
  ==_iff,
}
use so2c2011tp.Prelude.Int.{pos, ==ℤ_iff}
use so2c2011tp.Text.{Text, equal_texts, strlen}
use so2c2011tp.Text.Compare.{not_equal_texts}
use so2c2011tp.Access.State.{Group, NullPage, no_group, nobody, first_index_lem, at, nowhere}
use so2c2011tp.Access.Groups.{group_name_at, group_find, do_groupadd, group_reset}
use so2c2011tp.Access.Groups.Laws.{
  entry, accepts, fresh_group, made_group, Added, table_full, refused, made, do_groupadd_lem,
  get_entry,
}

-- Each entry in use holds its own index, and no two of them have the same name, unless it is empty.
pub record IsValid (groups : List Group) : Type 0 where
  pub entries : length groups ≡ 15
  pub own : (i : ℕ) → i < 15 → ((entry groups i).gid ≡ nobody) ⊎ ((entry groups i).gid ≡ pos i)
  pub unique :
      (i j : ℕ)
      → i < 15
      → j < 15
      → i ≢ j
      → (entry groups i).gid ≢ nobody
      → (entry groups j).gid ≢ nobody
      → (entry groups i).group_name ≢ []
      → (entry groups i).group_name ≢ (entry groups j).group_name

-- A new entry keeps the table well formed if its name is new.
pub set-IsValid :
    (groups : List Group) (i : ℕ) (g : Group)
    → IsValid groups
    → i < 15
    → (g.gid ≡ nobody) ⊎ (g.gid ≡ pos i)
    → (g.gid ≢ nobody
        → g.group_name ≢ []
        → (j : ℕ) → j < 15
        → j ≢ i
        → (entry groups j).gid ≢ nobody
        → (entry groups j).group_name ≢ g.group_name)
    → IsValid (set groups i g)
set-IsValid groups i g v hi own new = record {
  entries = length-set groups i g ∙ v.entries;
  own = λ j p. elim (Bool-cases (i == j)) [
    | inl same ↦ rw (← (==_iff i j).0 same, here) own
    | inr other ↦
        rw (get_or-set_ne groups {i = i} {j = j} g no_group (ground (arith, other))) (v.own j p)
  ];
  unique = λ j k p q n. elim (Bool-cases (i == j)) [
    | inl ij ↦
        rw (← (==_iff i j).0 ij, here, away k (λ e. n (sym ((==_iff i j).0 ij) ∙ e)))
          (λ a b c e. new a c k q (λ z. n (sym ((==_iff i j).0 ij) ∙ sym z)) b (sym e))
    | inr far ↦ (elim (Bool-cases (i == k)) [
      | inl ik ↦
          rw (← (==_iff i k).0 ik, here, away j (λ e. n (sym e ∙ (==_iff i k).0 ik)))
            (λ a b c e. new b (λ z. c (e ∙ z)) j p (λ z. n (z ∙ (==_iff i k).0 ik)) a e)
      | inr farther ↦
          rw (away j (ground (arith, far)), away k (ground (arith, farther))) (v.unique j k p q n)
    ])
  ];
}
  where
    away : (j : ℕ) → i ≢ j → get_or (set groups i g) j no_group ≡ entry groups j
    away j n = get_or-set_ne groups {i = i} {j = j} g no_group n

    here : get_or (set groups i g) i no_group ≡ g
    here = get_or-set_self groups i g no_group (omega (arith, v.entries))

-- An accepted name is no name of an entry in use.
accepted_is_new :
    (null : NullPage) (groups : List Group) (name : Text)
    → accepts null groups name ≡ true
    → (j : ℕ) → j < 15
    → (entry groups j).gid ≢ nobody
    → (entry groups j).group_name ≢ name
unfolding group_find
accepted_is_new null groups name ok j p used =
    elim (first_index_lem (λ i. equal_texts (group_name_at null groups i) name) 15) [
      | at i e hi hit before ↦ absurd (ground (arith, ok, e))
      | nowhere e all ↦
          not_equal_texts _ _ (
            ground
              (arith, all j p, get_entry groups j p, ==ℤ_iff (entry groups j).gid nobody, used))
    ]

made-IsValid :
    (null : NullPage) (groups : List Group) (i : ℕ) (name password : Text)
    → IsValid groups
    → i < 15
    → IsValid (set groups i (made_group null groups i name password))
made-IsValid null groups i name password v hi =
    let added = set groups i (fresh_group i) in
    set-IsValid groups i (made_group null groups i name password) v hi (inr refl)
      (elim (Bool-cases (accepts null added name)) [
        | inl taken ↦ rw taken (λ _ _ j p n used.
            let same : get_or added j no_group ≡ entry groups j =
              get_or-set_ne groups {i = i} {j = j} (fresh_group i) no_group (λ e. n (sym e)) in
            subst (λ g. g.group_name ≢ name) same
              (accepted_is_new null added name taken j p
                (subst (λ g. g.gid ≢ nobody) (sym same) used)))
        | inr empty ↦ rw empty (λ _ c. absurd (c refl))
      ])

Added-IsValid :
    (null : NullPage) (groups : List Group) (name password : Text) {out : Bool × List Group}
    → IsValid groups
    → Added null groups name password out
    → IsValid out.1
Added-IsValid null groups name password v (table_full _) = v
Added-IsValid null groups name password v (refused i hi _ _ left gone) =
    set-IsValid groups i left v hi (inl gone) (λ used. absurd (used gone))
Added-IsValid null groups name password v (made i hi _ _ _) =
    made-IsValid null groups i name password v hi

-- After `do_groupadd` with a name of less than 32 and a password of less than 16 characters the table
-- is well formed: entries hold their own index, and no two groups share
-- a name other than the empty one.
pub do_groupadd-IsValid :
    (null : NullPage) (groups : List Group) (name password : Text)
    → IsValid groups
    → strlen name < 32
    → strlen password < 16
    → (out : Bool × List Group) × (do_groupadd null groups name password ≡ some out) × IsValid out.1
do_groupadd-IsValid null groups name password v ns ps =
    let (out, e, added) = do_groupadd_lem null groups name password v.entries ns ps in
    (out, e, Added-IsValid null groups name password v added)

reset_unused : (xs : List Group) (i : ℕ) → (entry (group_reset xs) i).gid ≡ nobody
unfolding group_reset
reset_unused [] i = refl
reset_unused (x ∷ xs) zero = refl
reset_unused (x ∷ xs) (suc i) = reset_unused xs i

length-group_reset : (xs : List Group) → length (group_reset xs) ≡ length xs
unfolding group_reset
length-group_reset [] = refl
length-group_reset (x ∷ xs) = ap suc (length-group_reset xs)

-- The table at the start is well formed, whatever was in it.
pub group_reset-IsValid : (xs : List Group) → length xs ≡ 15 → IsValid (group_reset xs)
group_reset-IsValid xs full = record {
  entries = length-group_reset xs ∙ full;
  own = λ i p. inl (reset_unused xs i);
  unique = λ i j p q n a. absurd (a (reset_unused xs i));
}
