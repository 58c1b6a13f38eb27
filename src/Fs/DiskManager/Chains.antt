-- ===== src/Fs/DiskManager/Chains.antt =====
-- The blocks of a file as a chain on the disk, and the list of the blocks that are free.
use so2c2011tp.Prelude.{
  ℕ, zero, suc, ◌+◌, ◌*◌, ◌^◌, ◌<◌, ◌≤◌, ◌≡◌, refl, List, [], ◌∷◌, arith, length, ◌==◌,
  if◌then◌else◌, Bool, false, ◌||◌,
}
use so2c2011tp.Driver.Ata.{ata0}
use so2c2011tp.Fs.Strategy.Laws.{Slice}
use so2c2011tp.Fs.Structs.{DiskPage, magic_number, page_bytes}
use so2c2011tp.Fs.Structs.RoundTrip.{PageFits}
use so2c2011tp.Fs.DiskManager.Bitmap.{entry}

-- The address of block `k`.
abbrev pub place : ℕ → ℕ
place k = 11 * 512 + k * 256

-- A page of a block that has just been reserved.
pub record IsNew (p : DiskPage) : Type 0 where
  pub magic : p.magic ≡ magic_number
  pub disk : p.disk ≡ ata0
  pub total_length : p.total_length ≡ 256
  pub used_bytes : p.used_bytes ≡ 0
  pub fits : PageFits p

-- The last page of a chain, and a page before block `k`.
abbrev pub IsLast : DiskPage → Type 0
IsLast p = IsNew p × (p.has_next_page ≡ 0)

abbrev pub IsBefore : ℕ → DiskPage → Type 0
IsBefore k p = IsNew p × (p.has_next_page ≡ 1) × (p.next_sector ≡ 11) × (p.next_offset ≡ k * 256)

-- `v` holds at block `k` a page such as `P` says.
abbrev pub HoldsPage : (ℕ → ℕ) → ℕ → (DiskPage → Type 0) → Type 0
HoldsPage v k P = (p : DiskPage) × (k < 4096) × P p × Slice v (place k) 28 (page_bytes p)

-- Blocks `k`, `ks` … are linked in this order.
abbrev pub Chain : (ℕ → ℕ) → ℕ → List ℕ → Type 0
Chain v k [] = HoldsPage v k IsLast
Chain v k (k' ∷ ks) = HoldsPage v k (IsBefore k') × Chain v k' ks

abbrev pub ChainOf : (ℕ → ℕ) → List ℕ → Type 0
ChainOf v [] = Unit
ChainOf v (k ∷ ks) = Chain v k ks

-- Pages that stand elsewhere as they stood make the same chain.
pub Chain-kept :
    (v v' : ℕ → ℕ) (k : ℕ) (ks : List ℕ)
    → ((j : ℕ) (piece : List ℕ)
        → j < 4096
        → Slice v (place j) 28 piece
        → Slice v' (place j) 28 piece)
    → Chain v k ks
    → Chain v' k ks
Chain-kept v v' k [] h (p, lt, last, s) = (p, lt, last, h k (page_bytes p) lt s)
Chain-kept v v' k (k' ∷ ks) h ((p, lt, before, s), rest) =
    ((p, lt, before, h k (page_bytes p) lt s), Chain-kept v v' k' ks h rest)

pub ChainOf-kept :
    (v v' : ℕ → ℕ) (ks : List ℕ)
    → ((j : ℕ) (piece : List ℕ)
        → j < 4096
        → Slice v (place j) 28 piece
        → Slice v' (place j) 28 piece)
    → ChainOf v ks
    → ChainOf v' ks
ChainOf-kept v v' [] h c = tt
ChainOf-kept v v' (k ∷ ks) h c = Chain-kept v v' k ks h c

-- The free entries among the `n` from `k` on.
unfoldable pub free_entries : ℕ → ℕ → List ℕ → List ℕ
free_entries zero k block = []
free_entries (suc n) k block =
    let rest = free_entries n (k + 1) block in if entry block k == 0 then k ∷ rest else rest

pub free_entries-cong :
    (n k : ℕ) (b b' : List ℕ)
    → ((j : ℕ) → k ≤ j → entry b' j ≡ entry b j)
    → free_entries n k b' ≡ free_entries n k b
unfolding free_entries
free_entries-cong zero k b b' h = refl
free_entries-cong (suc n) k b b' h =
    rw (h k (omega arith), free_entries-cong n (k + 1) b b' (λ j p. h j (omega arith)))

-- Whether a number is in a list.
abbrev pub mem : ℕ → List ℕ → Bool
mem j [] = false
mem j (k ∷ ks) = (j == k) || mem j ks

pub place_range : (k : ℕ) → k < 4096 → place k + 256 < 2 ^ 24
place_range k h = omega arith

-- Free entries at the start of a range are among those found.
pub length-free_entries :
    (m n k : ℕ) (block : List ℕ)
    → ((j : ℕ) → k ≤ j → j < k + m → entry block j ≡ 0)
    → m ≤ n
    → m ≤ length (free_entries n k block)
unfolding free_entries
length-free_entries zero n k block h le = omega arith
length-free_entries (suc m) zero k block h le = absurd (omega arith)
length-free_entries (suc m) (suc n) k block h le =
    let rest =
      length-free_entries m n (k + 1) block (λ j p q. h j (omega arith) (omega arith))
        (omega arith) in
    ground (arith, h k (omega arith) (omega arith))
