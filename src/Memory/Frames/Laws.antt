-- ===== src/Memory/Frames/Laws.antt =====
-- Which frame is given to a page, and what of the bitset changes.
use so2c2011tp.Prelude.{
  ℕ, zero, suc, ◌+◌, ◌*◌, ◌/◌, ◌%◌, ◌≤◌, ◌<◌, ◌≡◌, ◌≢◌, sym, ap, subst, ◌∙◌, inl, inr, Option, none,
  some, List, arith, ◌==◌, get_or, Bool-cases, ==_iff, ltb,
}
use so2c2011tp.Memory.Frames.{digit, word_of, free_digit, first_from}

-- The bit of a frame.
abbrev pub used : List ℕ → ℕ → ℕ
used frames f = digit (word_of frames f) (f % 32)

-- A word of ones.
abbrev ones : ℕ → ℕ
ones zero = 0
ones (suc n) = 1 + ones n * 2

digit-ones : (n j : ℕ) → j < n → digit (ones n) j ≡ 1
unfolding digit
digit-ones zero j h = absurd (omega arith)
digit-ones (suc n) zero h = omega arith
digit-ones (suc n) (suc j) h =
    ap (λ w. digit w j) {x = (1 + ones n * 2) / 2} {y = ones n} (omega arith)
    ∙ digit-ones n j (omega arith)

-- The first free bit of a word between `j` and `j + n`.
data FreeDigit (w j n : ℕ) : Option ℕ → Type 0 where
  bit_free :
      (k : ℕ)
      → j ≤ k
      → k < j + n
      → digit w k ≡ 0
      → ((i : ℕ) → j ≤ i → i < k → digit w i ≢ 0)
      → FreeDigit w j n (some k)
  bits_used : ((i : ℕ) → j ≤ i → i < j + n → digit w i ≢ 0) → FreeDigit w j n none

behind_used :
    (w j : ℕ) (P : ℕ → Type 0)
    → digit w j ≢ 0
    → ((i : ℕ) → suc j ≤ i → P i → digit w i ≢ 0)
    → (i : ℕ) → j ≤ i
    → P i
    → digit w i ≢ 0
behind_used w j P h k i at_least p = elim (Bool-cases (i == j)) [
  | inl same ↦ subst (λ n. digit w n ≢ 0) (sym ((==_iff i j).0 same)) h
  | inr other ↦
      (let apart : i ≢ j = λ e. ground (arith, other, (==_iff i j).1 e) in k i (omega arith) p)
]

FreeDigit-cons :
    (w j n : ℕ) (o : Option ℕ) → digit w j ≢ 0 → FreeDigit w (j + 1) n o → FreeDigit w j (suc n) o
FreeDigit-cons w j n _ h (bit_free k lo hi free before) =
    bit_free k (omega arith) (omega arith) free
      (behind_used w j (λ i. i < k) h (λ i a b. before i (omega arith) b))
FreeDigit-cons w j n _ h (bits_used all) =
    bits_used (behind_used w j (λ i. i < j + suc n) h (λ i a b. all i (omega arith) (omega arith)))

free_digit_lem : (n j w : ℕ) → FreeDigit w j n (free_digit n j w)
unfolding free_digit
free_digit_lem zero j w = bits_used (λ i a b. absurd (omega arith))
free_digit_lem (suc n) j w = elim (Bool-cases (digit w j == 0)) [
  | inl free ↦ rw free (
      bit_free j (omega arith) (omega arith) ((==_iff (digit w j) 0).0 free)
        (λ i a b. absurd (omega arith)))
  | inr busy ↦ rw busy (
      FreeDigit-cons w j n (free_digit n (j + 1) w)
        (λ e. ground (arith, busy, (==_iff (digit w j) 0).1 e)) (free_digit_lem n (j + 1) w))
]

-- The first free frame from word `i` on, before word `i + n`.
pub data FreeFrame (frames : List ℕ) (i n : ℕ) : Option ℕ → Type 0 where
  frame_free :
      (f : ℕ)
      → f < (i + n) * 32
      → used frames f ≡ 0
      → ((g : ℕ) → i * 32 ≤ g → g < f → used frames g ≢ 0)
      → FreeFrame frames i n (some f)
  frames_used :
      ((g : ℕ) → i * 32 ≤ g → g < (i + n) * 32 → used frames g ≢ 0) → FreeFrame frames i n none

-- No bit of word `i` is free.
abbrev IsFull : List ℕ → ℕ → Type 0
IsFull frames i = (g : ℕ) → i * 32 ≤ g → g < (i + 1) * 32 → used frames g ≢ 0

digit_of :
    (frames : List ℕ) (i g : ℕ) → g / 32 ≡ i → used frames g ≡ digit (get_or frames i 0) (g % 32)
digit_of frames i g e = ap (λ k. digit (get_or frames k 0) (g % 32)) e

ones-IsFull : (frames : List ℕ) (i : ℕ) → get_or frames i 0 ≡ 0xFFFFFFFF → IsFull frames i
ones-IsFull frames i e g lo hi free = omega (
  arith,
  free,
  digit_of frames i g (omega arith),
  ap (λ w. digit w (g % 32)) e,
  digit-ones 32 (g % 32) (omega arith),
)

FreeFrame-cons :
    (frames : List ℕ) (i n : ℕ) (o : Option ℕ)
    → IsFull frames i
    → FreeFrame frames (i + 1) n o
    → FreeFrame frames i (suc n) o
FreeFrame-cons frames i n _ h (frame_free f hi free before) =
    frame_free f (omega arith) free (λ g a b. elim (Bool-cases (ltb g ((i + 1) * 32))) [
      | inl here ↦ h g a (ground (arith, here))
      | inr later ↦ before g (ground (arith, later)) b
    ])
FreeFrame-cons frames i n _ h (frames_used all) = frames_used (λ g a b.
    elim (Bool-cases (ltb g ((i + 1) * 32))) [
      | inl here ↦ h g a (ground (arith, here))
      | inr later ↦ all g (ground (arith, later)) (omega arith)
    ])

word_lem :
    (frames : List ℕ) (i n : ℕ) (o rest : Option ℕ)
    → FreeDigit (get_or frames i 0) 0 32 o
    → FreeFrame frames (i + 1) n rest
    → FreeFrame frames i (suc n) (elim o [ none ↦ rest | some j ↦ some (i * 32 + j) ])
word_lem frames i n _ rest (bit_free k lo hi free before) r =
    frame_free (i * 32 + k) (omega arith)
      (digit_of frames i (i * 32 + k) (omega arith)
        ∙ ap (digit (get_or frames i 0)) {x = (i * 32 + k) % 32} {y = k} (omega arith)
        ∙ free)
      (λ g a b e.
        before (g % 32) (omega arith) (omega arith) (sym (digit_of frames i g (omega arith)) ∙ e))
word_lem frames i n _ rest (bits_used all) r =
    FreeFrame-cons frames i n rest
      (λ g a b e.
        all (g % 32) (omega arith) (omega arith) (sym (digit_of frames i g (omega arith)) ∙ e))
      r

pub first_from_lem : (n i : ℕ) (frames : List ℕ) → FreeFrame frames i n (first_from n i frames)
unfolding first_from
first_from_lem zero i frames = frames_used (λ g a b. absurd (omega arith))
first_from_lem (suc n) i frames = elim (Bool-cases (get_or frames i 0 == 0xFFFFFFFF)) [
  | inl full ↦ rw full (
      FreeFrame-cons frames i n (first_from n (i + 1) frames)
        (ones-IsFull frames i ((==_iff (get_or frames i 0) 0xFFFFFFFF).0 full))
        (first_from_lem n (i + 1) frames))
  | inr other ↦ rw other (
      word_lem frames i n (free_digit 32 0 (get_or frames i 0)) (first_from n (i + 1) frames)
        (free_digit_lem 32 0 (get_or frames i 0)) (first_from_lem n (i + 1) frames))
]
