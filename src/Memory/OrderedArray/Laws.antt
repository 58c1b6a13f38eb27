-- ===== src/Memory/OrderedArray/Laws.antt =====
-- The items of the array, in order.
use so2c2011tp.Prelude.{
  ℕ, zero, suc, ◌+◌, ◌-◌, ◌<◌, ◌≤◌, ◌≡◌, ap, refl, sym, ◌∙◌, subst, inl, inr, Bool, List, [], ◌∷◌,
  ltb, length, take, if◌then◌else◌, arith, Bool-cases,
}
use so2c2011tp.Memory.OrderedArray.{
  OrderedArray, shift, insert_loop, insert_ordered_array, move_down, remove_loop,
  remove_ordered_array, standard_lessthan_predicate,
}

abbrev pub items : OrderedArray → List ℕ
items a = take a.size a.array

-- An insertion into a list, before the first element that is not less.
abbrev pub insert_before : (ℕ → ℕ → Bool) → ℕ → List ℕ → List ℕ
insert_before less_than item [] = item ∷ []
insert_before less_than item (x ∷ xs) =
    if less_than x item then x ∷ insert_before less_than item xs else item ∷ x ∷ xs

-- A list without one of its elements.
abbrev pub remove_nth : ℕ → List ℕ → List ℕ
remove_nth i [] = []
remove_nth zero (x ∷ xs) = xs
remove_nth (suc i) (x ∷ xs) = x ∷ remove_nth i xs

-- In order: no element is greater than one behind it.
abbrev pub AllFrom : ℕ → List ℕ → Type 0
AllFrom x [] = Unit
AllFrom x (y ∷ ys) = (x ≤ y) × AllFrom x ys

abbrev pub IsSorted : List ℕ → Type 0
IsSorted [] = Unit
IsSorted (x ∷ xs) = AllFrom x xs × IsSorted xs

take-shift :
    (tmp : ℕ) (xs : List ℕ) (n : ℕ)
    → n < length xs
    → take (suc n) (shift tmp xs n) ≡ tmp ∷ take n xs
unfolding shift
take-shift tmp [] n h = absurd (omega arith)
take-shift tmp (x ∷ xs) zero h = refl
take-shift tmp (x ∷ xs) (suc n) h = ap (λ ys. tmp ∷ ys) (take-shift x xs n (omega arith))

take-insert_loop :
    (less_than : ℕ → ℕ → Bool) (item : ℕ) (xs : List ℕ) (n : ℕ)
    → n < length xs
    → take (suc n) (insert_loop less_than item xs n) ≡ insert_before less_than item (take n xs)
unfolding insert_loop
take-insert_loop less_than item [] n h = absurd (omega arith)
take-insert_loop less_than item (x ∷ xs) zero h = refl
take-insert_loop less_than item (x ∷ xs) (suc n) h = elim (Bool-cases (less_than x item)) [
  | inl less ↦ rw less (ap (λ ys. x ∷ ys) (take-insert_loop less_than item xs n (omega arith)))
  | inr not_less ↦ rw not_less (take-shift item (x ∷ xs) (suc n) h)
]

-- With a cell left, `insert_ordered_array` puts the item before the first that is not less than it, by
-- whatever predicate, and keeps the order of the others.
pub insert_ordered_array_lem :
    (less_than : ℕ → ℕ → Bool) (item : ℕ) (a : OrderedArray)
    → a.size < length a.array
    → items (insert_ordered_array less_than item a) ≡ insert_before less_than item (items a)
unfolding insert_ordered_array
insert_ordered_array_lem less_than item a h =
    ap (λ n. take n (insert_loop less_than item a.array a.size)) {x = a.size + 1} {y = suc a.size}
      (omega arith)
    ∙ take-insert_loop less_than item a.array a.size h

take-move_down :
    (xs : List ℕ) (m : ℕ)
    → suc m ≤ length xs
    → take m (move_down xs (suc m)) ≡ remove_nth 0 (take (suc m) xs)
unfolding move_down
take-move_down [] m h = absurd (omega arith)
take-move_down (x ∷ xs) zero h = refl
take-move_down (x ∷ []) (suc m) h = absurd (omega arith)
take-move_down (x ∷ y ∷ ys) (suc m) h = ap (λ zs. y ∷ zs) (take-move_down (y ∷ ys) m (omega arith))

take-remove_loop :
    (i : ℕ) (xs : List ℕ) (m : ℕ)
    → i ≤ m
    → suc m ≤ length xs
    → take m (remove_loop i xs (suc m)) ≡ remove_nth i (take (suc m) xs)
unfolding remove_loop
take-remove_loop zero xs m hi h = take-move_down xs m h
take-remove_loop (suc i) [] m hi h = absurd (omega arith)
take-remove_loop (suc i) (x ∷ xs) zero hi h = absurd (omega arith)
take-remove_loop (suc i) (x ∷ xs) (suc m) hi h =
    ap (λ zs. x ∷ zs)
      (ap (λ n. take m (remove_loop i xs n)) {x = suc (suc m) - 1} {y = suc m} (omega arith)
        ∙ take-remove_loop i xs m (omega arith) (omega arith))

-- `remove_ordered_array` at an index in use takes out that item and keeps the order of the others.
pub remove_ordered_array_lem :
    (i : ℕ) (a : OrderedArray)
    → i < a.size
    → a.size ≤ length a.array
    → items (remove_ordered_array i a) ≡ remove_nth i (items a)
unfolding remove_ordered_array
remove_ordered_array_lem i a hi h =
    let m = a.size - 1 in
    let size : a.size ≡ suc m = omega arith in
    subst (λ n. take m (remove_loop i a.array n) ≡ remove_nth i (take n a.array)) (sym size)
      (take-remove_loop i a.array m (omega arith) (omega arith))

AllFrom-insert_before :
    (low item : ℕ) (xs : List ℕ)
    → low ≤ item
    → AllFrom low xs
    → AllFrom low (insert_before standard_lessthan_predicate item xs)
unfolding standard_lessthan_predicate
AllFrom-insert_before low item [] h all = (h, tt)
AllFrom-insert_before low item (x ∷ xs) h all = elim (Bool-cases (ltb x item)) [
  | inl less ↦ rw less (all.0, AllFrom-insert_before low item xs h all.1)
  | inr not_less ↦ rw not_less (h, all)
]

AllFrom-lower : (low x : ℕ) (xs : List ℕ) → low ≤ x → AllFrom x xs → AllFrom low xs
AllFrom-lower low x [] h all = tt
AllFrom-lower low x (y ∷ ys) h all = (omega (arith, all.0), AllFrom-lower low x ys h all.1)

insert_before-IsSorted :
    (item : ℕ) (xs : List ℕ)
    → IsSorted xs
    → IsSorted (insert_before standard_lessthan_predicate item xs)
unfolding standard_lessthan_predicate
insert_before-IsSorted item [] s = (tt, tt)
insert_before-IsSorted item (x ∷ xs) s = elim (Bool-cases (ltb x item)) [
  | inl less ↦ rw less (
    AllFrom-insert_before x item xs (ground (arith, less)) s.0,
    insert_before-IsSorted item xs s.1,
  )
  | inr not_less ↦
      rw not_less
        (((ground (arith, not_less)), AllFrom-lower item x xs (ground (arith, not_less)) s.0), s)
]

AllFrom-remove_nth : (low i : ℕ) (xs : List ℕ) → AllFrom low xs → AllFrom low (remove_nth i xs)
AllFrom-remove_nth low i [] all = all
AllFrom-remove_nth low zero (x ∷ xs) all = all.1
AllFrom-remove_nth low (suc i) (x ∷ xs) all = (all.0, AllFrom-remove_nth low i xs all.1)

remove_nth-IsSorted : (i : ℕ) (xs : List ℕ) → IsSorted xs → IsSorted (remove_nth i xs)
remove_nth-IsSorted i [] s = s
remove_nth-IsSorted zero (x ∷ xs) s = s.1
remove_nth-IsSorted (suc i) (x ∷ xs) s =
    (AllFrom-remove_nth x i xs s.0, remove_nth-IsSorted i xs s.1)

-- With the standard predicate and a cell left, an insertion keeps the items in order.
pub insert_ordered_array-IsSorted :
    (item : ℕ) (a : OrderedArray)
    → a.size < length a.array
    → IsSorted (items a)
    → IsSorted (items (insert_ordered_array standard_lessthan_predicate item a))
insert_ordered_array-IsSorted item a h s =
    subst IsSorted (sym (insert_ordered_array_lem standard_lessthan_predicate item a h))
      (insert_before-IsSorted item (items a) s)

-- A removal at an index in use keeps the items in order.
pub remove_ordered_array-IsSorted :
    (i : ℕ) (a : OrderedArray)
    → i < a.size
    → a.size ≤ length a.array
    → IsSorted (items a)
    → IsSorted (items (remove_ordered_array i a))
remove_ordered_array-IsSorted i a hi h s =
    subst IsSorted (sym (remove_ordered_array_lem i a hi h)) (remove_nth-IsSorted i (items a) s)
