-- ===== src/Fs/DiskManager/Bitmap/Laws.antt =====
-- Marks in a bitmap change one entry each, and the search finds the first entry that is free.
use so2c2011tp.Prelude.{
  ℕ, zero, suc, ◌+◌, ◌*◌, ◌/◌, ◌%◌, ◌^◌, ◌<◌, ◌≤◌, ◌≡◌, ◌≢◌, inl, inr, refl, ap, sym, ◌∙◌, Bool,
  true, ◌&&◌, Option, none, some, List, arith, length, ◌==◌, ltb, if◌then◌else◌, Bool-cases, get_or,
  set, get_or-set, length-set, AreBytes, get_or-AreBytes, set-AreBytes, ==_iff,
}
use so2c2011tp.Fs.DiskManager.Bitmap.{bit, set_bit, clear_bit, entry, mark, unmark, first_free}

all_below : ℕ → (ℕ → Bool) → Bool
all_below zero p = true
all_below (suc n) p = p n && all_below n p

all_below_lem : (n : ℕ) (p : ℕ → Bool) (x : ℕ) → all_below n p ≡ true → x < n → p x ≡ true
unfolding all_below
all_below_lem zero p x h lt = absurd (omega arith)
all_below_lem (suc n) p x h lt = ground (arith, all_below_lem n p x)

-- The bits of a byte `x` after a change of bit `j`, seen at bit `i`.
abbrev is_right_at : (ℕ → ℕ → ℕ) → ℕ → ℕ → ℕ → ℕ → Bool
is_right_at change to x j i =
    (bit (change x j) i == (if i == j then to else bit x i)) && ltb (change x j) 256

abbrev is_right : (ℕ → ℕ → ℕ) → ℕ → ℕ → Bool
is_right change to n = is_right_at change to (n % 256) (n / 256 % 8) (n / 2048)

set_bit_table : all_below (2 ^ 14) (is_right set_bit 1) ≡ true
unfolding all_below set_bit bit
set_bit_table = refl

clear_bit_table : all_below (2 ^ 14) (is_right clear_bit 0) ≡ true
unfolding all_below clear_bit bit
clear_bit_table = refl

is_right_lem :
    (change : ℕ → ℕ → ℕ) (to x j i : ℕ)
    → is_right_at change to x j i ≡ true
    → (bit (change x j) i ≡ (if i == j then to else bit x i)) × (change x j < 256)
is_right_lem change to x j i h = ground arith

bit_of_table :
    (change : ℕ → ℕ → ℕ) (to : ℕ)
    → all_below (2 ^ 14) (is_right change to) ≡ true
    → (x j i : ℕ) → x < 256
    → j < 8
    → i < 8
    → (bit (change x j) i ≡ (if i == j then to else bit x i)) × (change x j < 256)
bit_of_table change to table x j i hx hj hi =
    let n : ℕ = x + 256 * j + 2048 * i in
    let ex : n % 256 ≡ x = omega arith in
    let ej : n / 256 % 8 ≡ j = omega arith in
    let ei : n / 2048 ≡ i = omega arith in
    let right = all_below_lem (2 ^ 14) (is_right change to) n table (omega arith) in
    is_right_lem change to x j i (
      ap (λ y. is_right_at change to y j i) (sym ex)
      ∙ ap (λ y. is_right_at change to (n % 256) y i) (sym ej)
      ∙ ap (λ y. is_right_at change to (n % 256) (n / 256 % 8) y) (sym ei)
      ∙ right)

-- A change of one entry.
abbrev changed_at : (ℕ → ℕ → ℕ) → List ℕ → ℕ → List ℕ
changed_at change block k = set block (k / 8) (change (get_or block (k / 8) 0) (k % 8))

entry-changed_at :
    (change : ℕ → ℕ → ℕ) (to : ℕ)
    → all_below (2 ^ 14) (is_right change to) ≡ true
    → (block : List ℕ) (k j : ℕ) → AreBytes block
    → k < length block * 8
    → entry (changed_at change block k) j ≡ (if j == k then to else entry block j)
unfolding entry
entry-changed_at change to table block k j b h =
    let (right, _) =
      bit_of_table change to table (get_or block (k / 8) 0) (k % 8) (j % 8)
        (get_or-AreBytes block (k / 8) b) (omega arith) (omega arith) in
    let x' = change (get_or block (k / 8) 0) (k % 8) in
    elim (Bool-cases (k / 8 == j / 8)) [
      | inl same ↦
          ap (λ x. bit x (j % 8)) {y = x'} (get_or-set block (k / 8) (j / 8) x' 0 ∙ ground arith)
          ∙ right
          ∙ ground (
            arith,
            ap (λ m. bit (get_or block m 0) (j % 8)) {x = k / 8} {y = j / 8} (ground arith),
          )
      | inr apart ↦
          ap (λ x. bit x (j % 8)) {y = get_or block (j / 8) 0}
            (get_or-set block (k / 8) (j / 8) x' 0 ∙ ground arith)
          ∙ ground arith
    ]

changed_at-AreBytes :
    (change : ℕ → ℕ → ℕ) (to : ℕ)
    → all_below (2 ^ 14) (is_right change to) ≡ true
    → (block : List ℕ) (k : ℕ) → AreBytes block
    → AreBytes (changed_at change block k)
changed_at-AreBytes change to table block k b = set-AreBytes block (k / 8) _ b (
    (bit_of_table change to table (get_or block (k / 8) 0) (k % 8) 0
      (get_or-AreBytes block (k / 8) b) (omega arith) (omega arith)).1)

module _ (block : List ℕ) (k : ℕ) (b : AreBytes block) where
  pub entry-mark :
      (j : ℕ)
      → k < length block * 8
      → entry (mark block k) j ≡ (if j == k then 1 else entry block j)
  unfolding mark
  entry-mark j h = entry-changed_at set_bit 1 set_bit_table block k j b h

  pub entry-unmark :
      (j : ℕ)
      → k < length block * 8
      → entry (unmark block k) j ≡ (if j == k then 0 else entry block j)
  unfolding unmark
  entry-unmark j h = entry-changed_at clear_bit 0 clear_bit_table block k j b h

  pub mark-AreBytes : AreBytes (mark block k)
  unfolding mark
  mark-AreBytes = changed_at-AreBytes set_bit 1 set_bit_table block k b

  pub unmark-AreBytes : AreBytes (unmark block k)
  unfolding unmark
  unmark-AreBytes = changed_at-AreBytes clear_bit 0 clear_bit_table block k b

module _ (block : List ℕ) (k : ℕ) where
  pub length-mark : length (mark block k) ≡ length block
  unfolding mark
  length-mark = length-set block (k / 8) _

  pub length-unmark : length (unmark block k) ≡ length block
  unfolding unmark
  length-unmark = length-set block (k / 8) _

-- What the search from entry `k` over `n` entries finds.
pub data Found (block : List ℕ) (k n : ℕ) : Option ℕ → Type 0 where
  all_taken : ((j : ℕ) → k ≤ j → j < k + n → entry block j ≢ 0) → Found block k n none
  first :
      (m : ℕ)
      → k ≤ m
      → m < k + n
      → entry block m ≡ 0
      → ((j : ℕ) → k ≤ j → j < m → entry block j ≢ 0)
      → Found block k n (some m)

Found-later :
    (block : List ℕ) (k n : ℕ) (o : Option ℕ)
    → entry block k ≢ 0
    → Found block (k + 1) n o
    → Found block k (suc n) o
Found-later block k n _ taken (all_taken h) = all_taken (λ j p q. elim (Bool-cases (j == k)) [
  | inl same ↦ rw ((==_iff j k).0 same) taken
  | inr later ↦ h j (ground arith) (omega arith)
])
Found-later block k n _ taken (first m p q free h) =
    first m (omega arith) (omega arith) free (λ j r s. elim (Bool-cases (j == k)) [
      | inl same ↦ rw ((==_iff j k).0 same) taken
      | inr later ↦ h j (ground arith) s
    ])

pub first_free-Found : (n k : ℕ) (block : List ℕ) → Found block k n (first_free n k block)
unfolding first_free
first_free-Found zero k block = all_taken (λ j p q. absurd (omega arith))
first_free-Found (suc n) k block = elim (Bool-cases (entry block k == 0)) [
  | inl free ↦
      rw free (first k (omega arith) (omega arith) (ground arith) (λ j p q. absurd (omega arith)))
  | inr taken ↦ rw taken (Found-later block k n _ (ground arith) (first_free-Found n (k + 1) block))
]
