-- ===== src/Text/Numbers/Decimal.antt =====
-- Numbers written and read back, and how wide a padded string is.
use so2c2011tp.Prelude.{
  ℕ, zero, suc, ◌+◌, ◌-◌, ◌*◌, ◌/◌, ◌%◌, ◌^◌, ◌<◌, ◌≤◌, ◌≡◌, ◌∙◌, inl, inr, ap, refl, sym, some, [],
  ◌∷◌, ltb, leb, length, length-append, length-take, take, if◌then◌else◌, arith, Bool-cases,
}
use so2c2011tp.Prelude.Int.{pos, negsuc}
use so2c2011tp.Text.{Text, strlen}
use so2c2011tp.Text.Numbers.{
  decimal_step, atoi_from, atoi, digit_char, base_digits, number_base_n_to_string, itoa_digits,
  itoa, pad, prints,
}

-- Reading one more digit.
step_digit : (i d n : ℕ) → d < 10 → n ≡ i * 10 + d → n < 2 ^ 32 → decimal_step i (digit_char d) ≡ n
step_digit i d n hd e h = ground arith

atoi-base_digits :
    (fuel n : ℕ) (found : Text)
    → 0 < n
    → n ≤ fuel
    → n < 2 ^ 32
    → atoi_from 0 (base_digits fuel n 10 found) ≡ atoi_from n found
unfolding base_digits atoi_from
atoi-base_digits zero n found up h w = absurd (omega arith)
atoi-base_digits (suc fuel) n found up h w = elim (Bool-cases (ltb n 10)) [
  | inl small ↦ rw small (
      ap (λ i. atoi_from i found) (step_digit 0 (n % 10) n (omega arith) (ground (arith, small)) w))
  | inr big ↦ rw big (
      atoi-base_digits fuel (n / 10) (digit_char (n % 10) ∷ found) (ground (arith, big))
        (omega arith) (omega arith)
      ∙ ap (λ i. atoi_from i found) (step_digit (n / 10) (n % 10) n (omega arith) (omega arith) w))
]

-- What `numberBaseNtoString` writes of an unsigned int in base 10, `atoi` reads back.
pub atoi-number_base_n_to_string : (n : ℕ) → n < 2 ^ 32 → atoi (number_base_n_to_string n 10) ≡ n
unfolding number_base_n_to_string atoi atoi_from
atoi-number_base_n_to_string zero h = refl
atoi-number_base_n_to_string (suc n) h =
    ground (arith, atoi-base_digits (suc n) (suc n) [] (omega arith) (omega arith) h)

itoa_digits_same :
    (fuel i n : ℕ) (found : Text)
    → i < fuel
    → 0 < i
    → i ≤ n
    → itoa_digits fuel i found ≡ base_digits n i 10 found
unfolding itoa_digits base_digits
itoa_digits_same zero i n found h up hn = absurd (omega arith)
itoa_digits_same (suc fuel) i zero found h up hn = absurd (omega arith)
itoa_digits_same (suc fuel) i (suc n) found h up hn = elim (Bool-cases (ltb i 10)) [
  | inl small ↦ ground (arith, small)
  | inr big ↦ ground (
    arith,
    big,
    itoa_digits_same fuel (i / 10) n ((48 + i % 10) ∷ found) (omega arith) (ground (arith, big))
        (omega arith),
  )
]

number_base_digits : (n : ℕ) → 0 < n → number_base_n_to_string n 10 ≡ base_digits n n 10 []
unfolding number_base_n_to_string
number_base_digits n up = ground arith

negative : (n : ℕ) → itoa_digits (suc (suc n)) (suc n) [] ≡ number_base_n_to_string (suc n) 10
negative n =
    itoa_digits_same (suc (suc n)) (suc n) (suc n) [] (omega arith) (omega arith) (omega arith)
    ∙ sym (number_base_digits (suc n) (omega arith))

itoa_zero : itoa (pos 0) ≡ number_base_n_to_string 0 10
unfolding itoa itoa_digits number_base_n_to_string
itoa_zero = refl

-- `itoa` writes a number that is not negative as `numberBaseNtoString` does in base 10, and a negative
-- one as its absolute value behind a '-'.
pub itoa_lem :
    (n : ℕ)
    → (itoa (pos n) ≡ number_base_n_to_string n 10)
      × (itoa (negsuc n) ≡ 45 ∷ number_base_n_to_string (suc n) 10)
unfolding itoa
itoa_lem zero = (itoa_zero, ap (λ s. 45 ∷ s) (negative 0))
itoa_lem (suc n) = (negative n, ap (λ s. 45 ∷ s) (negative (suc n)))

length-pad :
    (fuel len padding : ℕ)
    → padding + 1 - len ≤ fuel
    → length (pad fuel len padding) ≡ padding + 1 - len
unfolding pad
length-pad zero len padding h = omega arith
length-pad (suc fuel) len padding h =
    ground (arith, length-pad fuel (len + 1) padding (omega arith))

strlen_lem : (s : Text) → strlen s ≡ length s
unfolding strlen
strlen_lem [] = refl
strlen_lem (c ∷ cs) = ap suc (strlen_lem cs)

-- A string that is not longer than its padding is written one column wider than the padding; a longer
-- one is cut to it.
pub length-prints :
    (s : Text) (padding : ℕ)
    → length (prints s (some padding)) ≡ (if leb (length s) padding then padding + 1 else padding)
unfolding prints
length-prints s padding = rw (strlen_lem s) (elim (Bool-cases (leb (length s) padding)) [
  | inl fits ↦ ground (
    arith,
    fits,
    length-append s (pad (padding + 1) (length s) padding),
    length-pad (padding + 1) (length s) padding (omega arith),
  )
  | inr long ↦ ground (
    arith,
    long,
    length-append (take padding s) (pad (padding + 1) (length s) padding),
    length-take padding s,
    length-pad (padding + 1) (length s) padding (omega arith),
  )
])
