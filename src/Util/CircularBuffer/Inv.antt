-- ===== src/Util/CircularBuffer/Inv.antt =====
-- The representation invariant of the ring: the positions lie in it, `count` apart.
use native.Mathlib.Nat.{mod-add-mod}
use so2c2011tp.Prelude.{
  ℕ, zero, suc, ◌+◌, ◌-◌, ◌%◌, ◌≤◌, ◌<◌, ◌≡◌, refl, ap, arith, length, length-set, length-replicate,
}
use so2c2011tp.Prelude.Int.{ℤ, pos, negsuc}
use so2c2011tp.Util.CircularBuffer.{CBuffer, init, next_index, add, get, clear}

-- The cell that `next_index` goes to; from -1 it is the first.
abbrev pub next : ℤ → ℕ → ℕ
next (pos n) size = (n + 1) % size
next (negsuc _) size = 0

abbrev pub IsPos : ℤ → ℕ → Type 0
IsPos (pos n) size = n < size
IsPos (negsuc n) size = n ≡ 0

pub record IsValid (b : CBuffer) : Type 0 where
  pub storage : length b.buffer ≡ b.size
  pub some_room : 0 < b.size
  pub read_in : IsPos b.read_pos b.size
  pub write_in : IsPos b.write_pos b.size
  pub count_in : b.count ≤ b.size
  pub apart : next b.write_pos b.size ≡ (next b.read_pos b.size + b.count) % b.size

pub next_index_lem : (p : ℤ) (size : ℕ) → IsPos p size → next_index p size ≡ pos (next p size)
unfolding next_index
next_index_lem (pos n) size h = refl
next_index_lem (negsuc zero) size h = refl
next_index_lem (negsuc (suc n)) size h = absurd (omega arith)

pub next-lt : (p : ℤ) (size : ℕ) → 0 < size → next p size < size
next-lt (pos n) size h = omega arith
next-lt (negsuc _) size h = h

mod_step : (h n cap : ℕ) → ((h + n) % cap + 1) % cap ≡ (h + (n + 1)) % cap
mod_step h n cap = rw mod-add-mod (ap (λ k. k % cap) (omega arith))

mod_shift : (h n cap : ℕ) → 0 < n → (h + n) % cap ≡ ((h + 1) % cap + (n - 1)) % cap
mod_shift h n cap p = rw mod-add-mod (ap (λ k. k % cap) (omega arith))

pub add-IsValid : (b : CBuffer) (c : ℕ) → IsValid b → IsValid (add b c).1
unfolding add
add-IsValid b c v = ground (
  arith,
  next_index_lem b.write_pos b.size v.write_in,
  next-lt b.write_pos b.size v.some_room,
  length-set b.buffer (next b.write_pos b.size) c,
  mod_step (next b.read_pos b.size) b.count b.size,
)

pub get-IsValid : (b : CBuffer) → IsValid b → IsValid (get b).1
unfolding get
get-IsValid b v = ground (
  arith,
  next_index_lem b.read_pos b.size v.read_in,
  next-lt b.read_pos b.size v.some_room,
  mod_shift (next b.read_pos b.size) b.count b.size,
)

pub clear-IsValid : (b : CBuffer) → IsValid b → IsValid (clear b)
unfolding clear
clear-IsValid b v = ground arith

pub init-IsValid : (n : ℕ) → 0 < n → IsValid (init n)
unfolding init
init-IsValid n h = ground (arith, length-replicate n (let z : ℕ = 0 in z))
