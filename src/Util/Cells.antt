-- ===== src/Util/Cells.antt =====
-- The cells of an array that is used as a ring.
use native.Mathlib.Nat.{mod-add-mod, mod-eq_of_lt, mod-eq-sub-mod, add-zero}
use native.Mathlib.Decide.{dec_lt}
use so2c2011tp.Prelude.{
  ℕ, zero, suc, ◌+◌, ◌-◌, ◌%◌, ◌≤◌, ◌<◌, ◌≡◌, ◌≢◌, refl, ◌∙◌, ap, List, [], ◌∷◌, ◌++◌, arith,
  length, get_or, set, get_or-set_self, get_or-set_ne,
}

module _ (buf : List ℕ) (cap : ℕ) where
  -- `n` characters read from cell `h` on, round the ring
  abbrev pub cells : ℕ → ℕ → List ℕ
  cells h zero = []
  cells h (suc n) = get_or buf h 0 ∷ cells ((h + 1) % cap) n

  pub length-cells : (h n : ℕ) → length (cells h n) ≡ n
  length-cells h zero = refl
  length-cells h (suc n) = ap suc (length-cells ((h + 1) % cap) n)

  pub cells_split : (h n : ℕ) → n ≢ 0 → cells h n ≡ get_or buf h 0 ∷ cells ((h + 1) % cap) (n - 1)
  cells_split h zero p = absurd (p refl)
  cells_split h (suc n) p = ap (λ k. cells h (suc k)) (omega arith)

-- A step of fewer cells than the ring has leads to another cell.
moves_on : (cap h k : ℕ) → h < cap → 0 < k → k < cap → (h + k) % cap ≢ h
moves_on cap h k hh pk hk = elim (dec_lt (h + k) cap) [
  | yes p ↦ omega (arith, mod-eq_of_lt p)
  | no p ↦ omega (
    arith,
    mod-eq-sub-mod {n = h + k} {m = cap} (omega arith),
    mod-eq_of_lt {n = h + k - cap} {m = cap} (omega arith),
  )
]

-- A write to the cell behind the last one appends the character.
pub cells-set :
    (buf : List ℕ) (cap x n h i : ℕ)
    → cap ≤ length buf
    → h < cap
    → n < cap
    → i ≡ (h + n) % cap
    → cells (set buf i x) cap h (suc n) ≡ cells buf cap h n ++ (x ∷ [])
cells-set buf cap x zero h i hs hh hn e =
    let at_h : i ≡ h = e ∙ rw (add-zero, mod-eq_of_lt hh) in
    rw (at_h, get_or-set_self buf h x 0 (omega arith))
cells-set buf cap x (suc n) h i hs hh hn e =
    let shifted : i ≡ ((h + 1) % cap + n) % cap =
      e ∙ rw mod-add-mod (ap (λ k. k % cap) (omega arith)) in
    let apart : i ≢ h = rw e (moves_on cap h (suc n) hh (omega arith) hn) in
    let rest = cells-set buf cap x n ((h + 1) % cap) i hs (omega arith) (omega arith) shifted in
    rw (get_or-set_ne buf x 0 apart) (ap (λ q. get_or buf h 0 ∷ q) rest)
