-- ===== src/Fs/DiskManager/Bitmap.antt =====
-- The bitmaps of src/fs/diskManager.c: bit `j` of byte `i` stands for entry `i * 8 + j`.
pub mod Laws
use so2c2011tp.Prelude.{
  ℕ, zero, suc, ◌+◌, ◌-◌, ◌*◌, ◌/◌, ◌%◌, ◌^◌, Option, none, some, List, [], ◌∷◌, ◌==◌,
  if◌then◌else◌, get_or, set,
}

-- `BIT(n, j)`, as 0 or 1.
unfoldable pub bit : ℕ → ℕ → ℕ
bit n j = n / 2 ^ j % 2

-- `n |= (1 << j)`
unfoldable pub set_bit : ℕ → ℕ → ℕ
unfolding bit
set_bit n j = if bit n j == 0 then n + 2 ^ j else n

-- `n &= ~(1 << j)`
unfoldable pub clear_bit : ℕ → ℕ → ℕ
unfolding bit
clear_bit n j = if bit n j == 0 then n else n - 2 ^ j

unfoldable pub entry : List ℕ → ℕ → ℕ
unfolding bit
entry block k = bit (get_or block (k / 8) 0) (k % 8)

unfoldable pub mark : List ℕ → ℕ → List ℕ
unfolding set_bit
mark block k = set block (k / 8) (set_bit (get_or block (k / 8) 0) (k % 8))

unfoldable pub unmark : List ℕ → ℕ → List ℕ
unfolding clear_bit
unmark block k = set block (k / 8) (clear_bit (get_or block (k / 8) 0) (k % 8))

-- The two loops of `diskManager_nextInode` over the bytes and their bits, as one over the entries
-- from `k` on, of which `n` are left.
unfoldable pub first_free : ℕ → ℕ → List ℕ → Option ℕ
unfolding entry
first_free zero k block = none
first_free (suc n) k block =
    let rest = first_free n (k + 1) block in if entry block k == 0 then some k else rest
