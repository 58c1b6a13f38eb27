-- ===== src/Access/Bits.antt =====
-- Masks of bits: when a mask has every bit of another.
use Prim.Native.Nat.{digits, bit_and, bit_and-bitwise}
use native.Mathlib.Nat.{le_refl}
use so2c2011tp.Prelude.{
  ℕ, zero, suc, ◌+◌, ◌-◌, ◌*◌, ◌/◌, ◌%◌, ◌<◌, ◌≤◌, ◌≡◌, ◌↔◌, refl, ap, subst, ◌∙◌, min, arith,
}

-- What the native `bit_and` means: the smaller digit at each place, on fuel.
abbrev both : ℕ → ℕ → ℕ → ℕ
both fuel x y = digits (λ rest. 0) min fuel x y

one_more : (fuel x y : ℕ) → x ≤ fuel → both (suc fuel) x y ≡ both fuel x y
one_more zero zero y h = refl
one_more (suc fuel) zero y h = refl
one_more zero (suc x) y h = absurd (omega arith)
one_more (suc fuel) (suc x) y h =
    ap (λ rest. rest * 2 + min (suc x % 2) (y % 2))
      (one_more fuel (suc x / 2) (y / 2) (omega arith))

many_more : (k fuel x y : ℕ) → x ≤ fuel → both (k + fuel) x y ≡ both fuel x y
many_more zero fuel x y h = ap (λ n. both n x y) {x = 0 + fuel} {y = fuel} (omega arith)
many_more (suc k) fuel x y h =
    ap (λ n. both n x y) {x = suc k + fuel} {y = suc (k + fuel)} (omega arith)
    ∙ one_more (k + fuel) x y (omega arith)
    ∙ many_more k fuel x y h

enough : (fuel x y : ℕ) → x ≤ fuel → both fuel x y ≡ both x x y
enough fuel x y h =
    ap (λ n. both n x y) {x = fuel} {y = fuel - x + x} (omega arith)
    ∙ many_more (fuel - x) x x y (le_refl x)

-- One binary digit at a time.
pub bit_and_step : (a b : ℕ) → bit_and a b ≡ bit_and (a / 2) (b / 2) * 2 + min (a % 2) (b % 2)
bit_and_step zero b = omega (arith, bit_and-bitwise 0 b, bit_and-bitwise 0 (b / 2))
bit_and_step (suc a) b = omega (
  arith,
  bit_and-bitwise (suc a) b,
  bit_and-bitwise (suc a / 2) (b / 2),
  enough a (suc a / 2) (b / 2) (omega arith),
)

-- `a` has every bit of `d`.
abbrev pub Covers : ℕ → ℕ → Type 0
Covers a d = bit_and a d ≡ d

Covers-step : (a d : ℕ) → Covers a d ↔ ((d % 2 ≤ a % 2) × Covers (a / 2) (d / 2))
Covers-step a d = (
  λ e. (omega (arith, bit_and_step a d), omega (arith, bit_and_step a d)),
  λ p. omega (arith, bit_and_step a d, p.0, p.1),
)

none_in_common : (fuel x : ℕ) → both fuel x 0 ≡ 0
none_in_common zero x = refl
none_in_common (suc fuel) zero = refl
none_in_common (suc fuel) (suc x) = omega (arith, none_in_common fuel (suc x / 2))

Covers-zero : (a : ℕ) → Covers a 0
Covers-zero a = bit_and-bitwise a 0 ∙ none_in_common a a

-- The three lowest bits of `d` are among those of `a`.
abbrev pub HasThree : ℕ → ℕ → Type 0
HasThree a d = (d % 2 ≤ a % 2) × (d / 2 % 2 ≤ a / 2 % 2) × (d / 4 % 2 ≤ a / 4 % 2)

pub Covers-three : (a d : ℕ) → d < 8 → Covers a d ↔ HasThree a d
Covers-three a d h = (
  λ e.
      (let (p, e1) = (Covers-step a d).0 e in
        let (q, e2) = (Covers-step (a / 2) (d / 2)).0 e1 in
        let (r, e3) = (Covers-step (a / 2 / 2) (d / 2 / 2)).0 e2 in (p, q, omega (arith, r))),
  λ (p, q, r).
      (let none_left : d / 2 / 2 / 2 ≡ 0 = omega arith in
        let last : Covers (a / 2 / 2 / 2) (d / 2 / 2 / 2) = rw none_left (Covers-zero _) in
        (Covers-step a d).1 (
          p,
          (Covers-step (a / 2) (d / 2)).1
              (q, (Covers-step (a / 2 / 2) (d / 2 / 2)).1 (omega (arith, r), last)),
        )),
)

Covers-double : (a d : ℕ) → Covers a (d * 2) ↔ Covers (a / 2) d
Covers-double a d =
    let half : d * 2 / 2 ≡ d = omega arith in
    (
      λ e. subst (λ k. Covers (a / 2) k) half ((Covers-step a (d * 2)).0 e).1,
      λ e. (Covers-step a (d * 2)).1 (omega arith, rw half e),
    )

pub Covers-sixteen : (a d : ℕ) → Covers a (d * 16) ↔ Covers (a / 16) d
Covers-sixteen a d =
    let four : d * 16 ≡ d * 2 * 2 * 2 * 2 = omega arith in
    let halves : a / 16 ≡ a / 2 / 2 / 2 / 2 = omega arith in
    (
      λ e. rw halves (
          (Covers-double _ _).0 (
            (Covers-double _ _).0
              ((Covers-double _ _).0 ((Covers-double a _).0 (subst (λ k. Covers a k) four e))))),
      λ e. rw four (
          (Covers-double a _).1 (
            (Covers-double _ _).1
              ((Covers-double _ _).1 ((Covers-double _ d).1 (subst (λ k. Covers k d) halves e))))),
    )

pub Covers-bytes : (a d : ℕ) → Covers a (d * 256) ↔ Covers (a / 256) d
Covers-bytes a d =
    let twice : d * 256 ≡ d * 16 * 16 = omega arith in
    let halves : a / 256 ≡ a / 16 / 16 = omega arith in
    (
      λ e.
          rw halves
            ((Covers-sixteen _ d).0 ((Covers-sixteen a _).0 (subst (λ k. Covers a k) twice e))),
      λ e.
          rw twice
            ((Covers-sixteen a _).1 ((Covers-sixteen _ d).1 (subst (λ k. Covers k d) halves e))),
    )
