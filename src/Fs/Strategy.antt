-- ===== src/Fs/Strategy.antt =====
-- src/fs/diskManager.c and include/fs/diskManager.h: the two function pointers by which the disk
-- manager reaches the disks, and its calls of them. `S` is the state behind the pointers.
pub mod Laws
pub mod Calls
pub mod Instances
use so2c2011tp.Prelude.{ℕ, Option, none, some, List, ◌+◌}
use so2c2011tp.Prelude.Int.{ℤ, negsuc}
use so2c2011tp.Driver.Ata.{u16}

-- `disk_strategy`: a disk, a number of bytes or the bytes, a sector and an offset. `none` stands for a
-- refusal, which leaves the caller's buffer alone.
pub record Strategy (S : Type 0) : Type 0 where
  pub read : S → ℕ → ℕ → ℕ → ℕ → Option (List ℕ) × S
  pub write : S → ℕ → List ℕ → ℕ → ℕ → Option S

-- The pointers, and the bytes that stand on the stack where a local struct or buffer of some size
-- is not set before it is used.
pub record Machine (S : Type 0) : Type 0 where
  pub strategy : Strategy S
  pub stack : ℕ → List ℕ

pub record Manager (S : Type 0) : Type 0 where
  pub drive : S
  pub errno : ℤ

abbrev pub e_out_of_memory : ℤ
e_out_of_memory = negsuc 3

abbrev pub e_corrupted_file : ℤ
e_corrupted_file = negsuc 4

abbrev pub e_invalid_arg : ℤ
e_invalid_arg = negsuc 5

-- What a call of `strategy.read` leaves in a buffer that held `old`.
abbrev pub received : {S : Type 0} → List ℕ → Manager S → Option (List ℕ) × S → List ℕ × Manager S
received old st (none, s') = (old, record { drive = s'; errno = e_invalid_arg })
received old st (some b, s') = (b, record st { drive = s' })

module _ {S : Type 0} (mc : Machine S) where
  -- `strategy.read` into a buffer that holds `old`; a sector is passed as an `unsigned short`.
  unfoldable pub fetch : List ℕ → ℕ → ℕ → ℕ → ℕ → Manager S → List ℕ × Manager S
  fetch old disk bytes sector offset st =
      received old st (mc.strategy.read st.drive disk bytes (u16 sector) offset)

  -- `strategy.write`
  unfoldable pub put : ℕ → List ℕ → ℕ → ℕ → Manager S → Manager S
  put disk msg sector offset st = elim (mc.strategy.write st.drive disk msg (u16 sector) offset) [
    | none ↦ record st { errno = e_invalid_arg }
    | some s' ↦ record st { drive = s' }
  ]
