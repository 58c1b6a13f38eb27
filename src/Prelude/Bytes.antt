-- ===== src/Prelude/Bytes.antt =====
-- Buffers of bytes: `memcpy`, and what a copy leaves at each place.
use so2c2011tp.Prelude.Lists.{
  length, get_or, set, length-set, get_or-set, get_or-cons, take, drop, replicate,
}
use so2c2011tp.Prelude.Tests.{ltb, leb, if◌then◌else◌}
use Prim.Native.Nat.{ℕ, zero, suc, ◌+◌, ◌-◌, ◌≤◌, ◌<◌}
use mathlib.Core.Bool.{◌&&◌}
use mathlib.Core.Path.{◌≡◌, refl, ap, ◌∙◌}
use mathlib.Core.List.{List, [], ◌∷◌, ◌++◌}
use native.Mathlib.Omega.{arith}

-- Every byte of the buffer is below 256.
abbrev pub AreBytes : List ℕ → Type 0
AreBytes [] = Unit
AreBytes (x ∷ xs) = (x < 256) × AreBytes xs

-- `for (i = 0; i < length new; i++) xs[o + i] = new[i];`
abbrev pub overlay : List ℕ → ℕ → List ℕ → List ℕ
overlay xs o [] = xs
overlay xs o (y ∷ ys) = overlay (set xs o y) (o + 1) ys

pub length-overlay : (xs : List ℕ) (o : ℕ) (ys : List ℕ) → length (overlay xs o ys) ≡ length xs
length-overlay xs o [] = refl
length-overlay xs o (y ∷ ys) = length-overlay (set xs o y) (o + 1) ys ∙ length-set xs o y

pub get_or-overlay :
    (xs : List ℕ) (o : ℕ) (ys : List ℕ) (k d : ℕ)
    → o + length ys ≤ length xs
    → get_or (overlay xs o ys) k d
      ≡ (if leb o k && ltb k (o + length ys) then get_or ys (k - o) d else get_or xs k d)
get_or-overlay xs o [] k d h = ground arith
get_or-overlay xs o (y ∷ ys) k d h = ground (
  arith,
  get_or-overlay (set xs o y) (o + 1) ys k d,
  get_or-set xs o k y d,
  length-set xs o y,
  get_or-cons y ys (k - o) d,
  ap (λ n. get_or ys n d) {x = k - o - 1} {y = k - (o + 1)} (omega arith),
)

pub set-AreBytes : (xs : List ℕ) (i x : ℕ) → AreBytes xs → x < 256 → AreBytes (set xs i x)
set-AreBytes [] i x h p = tt
set-AreBytes (y ∷ xs) zero x h p = (p, h.1)
set-AreBytes (y ∷ xs) (suc i) x h p = (h.0, set-AreBytes xs i x h.1 p)

pub overlay-AreBytes :
    (xs : List ℕ) (o : ℕ) (ys : List ℕ) → AreBytes xs → AreBytes ys → AreBytes (overlay xs o ys)
overlay-AreBytes xs o [] h p = h
overlay-AreBytes xs o (y ∷ ys) h p =
    overlay-AreBytes (set xs o y) (o + 1) ys (set-AreBytes xs o y h p.0) p.1

pub take-AreBytes : (n : ℕ) (xs : List ℕ) → AreBytes xs → AreBytes (take n xs)
take-AreBytes zero xs h = tt
take-AreBytes (suc n) [] h = tt
take-AreBytes (suc n) (x ∷ xs) h = (h.0, take-AreBytes n xs h.1)

pub drop-AreBytes : (n : ℕ) (xs : List ℕ) → AreBytes xs → AreBytes (drop n xs)
drop-AreBytes zero xs h = h
drop-AreBytes (suc n) [] h = tt
drop-AreBytes (suc n) (x ∷ xs) h = drop-AreBytes n xs h.1

pub AreBytes-get_or : (xs : List ℕ) → ((k : ℕ) → k < length xs → get_or xs k 0 < 256) → AreBytes xs
AreBytes-get_or [] h = tt
AreBytes-get_or (x ∷ xs) h =
    (h 0 (omega arith), AreBytes-get_or xs (λ k p. h (suc k) (omega arith)))

pub get_or-AreBytes : (xs : List ℕ) (k : ℕ) → AreBytes xs → get_or xs k 0 < 256
get_or-AreBytes [] k h = omega arith
get_or-AreBytes (x ∷ xs) zero h = h.0
get_or-AreBytes (x ∷ xs) (suc k) h = get_or-AreBytes xs k h.1

pub append-AreBytes : (xs ys : List ℕ) → AreBytes xs → AreBytes ys → AreBytes (xs ++ ys)
append-AreBytes [] ys h p = p
append-AreBytes (x ∷ xs) ys h p = (h.0, append-AreBytes xs ys h.1 p)

pub replicate-AreBytes : (n x : ℕ) → x < 256 → AreBytes (replicate n x)
replicate-AreBytes zero x h = tt
replicate-AreBytes (suc n) x h = (h, replicate-AreBytes n x h)
