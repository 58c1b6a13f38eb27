-- ===== src/Fs/Strategy/Laws.antt =====
-- What the disk manager relies on in a strategy: the disks are rows of bytes, of which a read yields
-- a piece and a write replaces one.
use so2c2011tp.Prelude.{
  ℕ, ◌+◌, ◌-◌, ◌*◌, ◌^◌, ◌<◌, ◌≡◌, true, ◌&&◌, some, List, length, ◌==◌, ltb, leb, if◌then◌else◌,
  get_or, AreBytes,
}
use so2c2011tp.Driver.Ata.{is_disk}
use so2c2011tp.Fs.Strategy.{Strategy}

-- `msg` is the `n` bytes from address `x` on.
pub record Slice (v : ℕ → ℕ) (x n : ℕ) (msg : List ℕ) : Type 0 where
  pub count : length msg ≡ n
  pub bytes : (k : ℕ) → k < n → get_or msg k 0 ≡ v (x + k)

-- The bytes of all disks after `msg` was written at address `x` of one of them.
abbrev pub Overwritten : (ℕ → ℕ → ℕ) → (ℕ → ℕ → ℕ) → ℕ → ℕ → List ℕ → Type 0
Overwritten v v' disk x msg =
    (d y : ℕ)
    → y < 2 ^ 24
    → v' d y
      ≡ (if (d == disk) && (leb x y && ltb y (x + length msg)) then get_or msg (y - x) 0 else v d y)

-- The laws, of addresses below 2 ^ 24.
pub record IsDrive {S : Type 0} (t : Strategy S) : Type 1 where
  pub IsGood : S → Type 0
  pub byte : S → ℕ → ℕ → ℕ
  pub byte_bound : (s : S) (disk x : ℕ) → IsGood s → byte s disk x < 256
  pub read_lem :
      (s : S) (disk bytes sector offset : ℕ)
      → IsGood s
      → is_disk disk ≡ true
      → sector * 512 + offset + bytes < 2 ^ 24
      → (msg : List ℕ) × (s' : S) × (t.read s disk bytes sector offset ≡ (some msg, s'))
        × Slice (byte s disk) (sector * 512 + offset) bytes msg
        × IsGood s'
        × ((d y : ℕ) → y < 2 ^ 24 → byte s' d y ≡ byte s d y)
  pub write_lem :
      (s : S) (disk : ℕ) (msg : List ℕ) (sector offset : ℕ)
      → IsGood s
      → is_disk disk ≡ true
      → AreBytes msg
      → sector * 512 + offset + length msg < 2 ^ 24
      → (s' : S) × (t.write s disk msg sector offset ≡ some s')
        × IsGood s'
        × Overwritten (byte s) (byte s') disk (sector * 512 + offset) msg
