-- ===== src/Memory/Frames/Digits.antt =====
-- The digits of a word with one of them set or cleared.
use so2c2011tp.Prelude.{ℕ, zero, suc, ◌+◌, ◌*◌, ◌/◌, ◌%◌, ◌≡◌, ◌≢◌, refl, ap, ◌∙◌, arith}
use so2c2011tp.Memory.Frames.{digit, or_digit, and_not_digit}

low_digit : (a b : ℕ) → (a % 2 + b * 2) % 2 ≡ a % 2
low_digit a b = omega arith

rest_of : (a b : ℕ) → (a % 2 + b * 2) / 2 ≡ b
rest_of a b = omega arith

pub digit-or_digit_self : (j w : ℕ) → digit (or_digit w j) j ≡ 1
unfolding digit or_digit
digit-or_digit_self zero w = omega arith
digit-or_digit_self (suc j) w =
    ap (λ n. digit n j) (rest_of w (or_digit (w / 2) j)) ∙ digit-or_digit_self j (w / 2)

pub digit-or_digit_ne : (i j w : ℕ) → i ≢ j → digit (or_digit w j) i ≡ digit w i
unfolding digit or_digit
digit-or_digit_ne zero zero w h = absurd (h refl)
digit-or_digit_ne zero (suc j) w h = low_digit w (or_digit (w / 2) j)
digit-or_digit_ne (suc i) zero w h = ap (λ n. digit n i) (omega arith)
digit-or_digit_ne (suc i) (suc j) w h =
    ap (λ n. digit n i) (rest_of w (or_digit (w / 2) j))
    ∙ digit-or_digit_ne i j (w / 2) (λ e. h (ap suc e))

pub digit-and_not_digit_self : (j w : ℕ) → digit (and_not_digit w j) j ≡ 0
unfolding digit and_not_digit
digit-and_not_digit_self zero w = omega arith
digit-and_not_digit_self (suc j) w =
    ap (λ n. digit n j) (rest_of w (and_not_digit (w / 2) j)) ∙ digit-and_not_digit_self j (w / 2)

pub digit-and_not_digit_ne : (i j w : ℕ) → i ≢ j → digit (and_not_digit w j) i ≡ digit w i
unfolding digit and_not_digit
digit-and_not_digit_ne zero zero w h = absurd (h refl)
digit-and_not_digit_ne zero (suc j) w h = low_digit w (and_not_digit (w / 2) j)
digit-and_not_digit_ne (suc i) zero w h = ap (λ n. digit n i) (omega arith)
digit-and_not_digit_ne (suc i) (suc j) w h =
    ap (λ n. digit n i) (rest_of w (and_not_digit (w / 2) j))
    ∙ digit-and_not_digit_ne i j (w / 2) (λ e. h (ap suc e))
