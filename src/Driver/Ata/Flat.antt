-- ===== src/Driver/Ata/Flat.antt =====
-- The disk as one row of bytes: what a transfer of any length reads and writes in it.
use so2c2011tp.Prelude.{
  ℕ, zero, suc, ◌+◌, ◌-◌, ◌*◌, ◌/◌, ◌%◌, ◌^◌, ◌≤◌, ◌<◌, ◌≡◌, inl, inr, refl, ◌∙◌, ap, sym, true,
  some, List, [], ◌++◌, arith, length, ◌==◌, ltb, if◌then◌else◌, Bool-cases, take, drop,
  length-take, length-drop, get_or, get_or-take, get_or-drop, get_or-append, length-append,
}
use so2c2011tp.Driver.Ata.{
  Media, sector_bytes, read_part, ata_normalize, read_loop, u16, is_disk, ata_read,
}
use so2c2011tp.Driver.Ata.Words.{length-sector_bytes}

-- Sectors have their full length.
abbrev pub IsFormatted : Media → Type 0
IsFormatted m = (ata sector : ℕ) → length (m ata sector) ≡ 256

-- The byte at an address, where `v` gives the bytes of each of the 2 ^ 16 sectors.
abbrev pub byte_at : (ℕ → List ℕ) → ℕ → ℕ
byte_at v x = get_or (v (x / 512 % 2 ^ 16)) (x % 512) 0

pub byte_at_cong :
    (v : ℕ → List ℕ) (s o x : ℕ)
    → s ≡ x / 512 % 2 ^ 16
    → o ≡ x % 512
    → get_or (v s) o 0 ≡ byte_at v x
byte_at_cong v s o x e p = rw (e, p)

-- The bytes of a disk.
abbrev pub disk_bytes : Media → ℕ → ℕ → List ℕ
disk_bytes m ata sector = sector_bytes (m ata sector)

pub ata_normalize_lem :
    (sector offset : ℕ)
    → sector < 2 ^ 16
    → let x = sector * 512 + offset in ata_normalize sector offset ≡ (x / 512 % 2 ^ 16, x % 512)
unfolding ata_normalize
ata_normalize_lem sector offset h = ground arith

-- What a transfer of `n` bytes from address `x` on has read.
pub record Reads (v : ℕ → List ℕ) (x n : ℕ) (msg : List ℕ) : Type 0 where
  pub count : length msg ≡ n
  pub bytes : (k : ℕ) → k < n → get_or msg k 0 ≡ byte_at v (x + k)

-- A first part up to the end of its sector, and the rest from the next sector on.
pub Reads-append :
    (v : ℕ → List ℕ) (x n y : ℕ) (first rest : List ℕ)
    → Reads v x (512 - x % 512) first
    → Reads v y (n - (512 - x % 512)) rest
    → 512 - x % 512 ≤ n
    → y ≡ (x / 512 % 2 ^ 16 + 1) % 2 ^ 16 * 512
    → Reads v x n (first ++ rest)
Reads-append v x n y first rest a b h e = record {
  count = omega (arith, length-append first rest, a.count, b.count);
  bytes = λ k p. elim (Bool-cases (ltb k (length first))) [
    | inl before ↦ rw (get_or-append, before) (a.bytes k (ground (arith, a.count)))
    | inr after ↦
        rw (get_or-append, after)
          (b.bytes (k - length first) (ground (arith, a.count))
            ∙ byte_at_cong v _ _ (x + k) (ground (arith, a.count)) (ground (arith, a.count)))
  ];
}

-- A part of one sector: a piece of the row of bytes.
pub part-Reads :
    (v : ℕ → List ℕ) (x n : ℕ) (b : List ℕ)
    → length b ≡ 512
    → v (x / 512 % 2 ^ 16) ≡ b
    → x % 512 + n ≤ 512
    → Reads v x n (take n (drop (x % 512) b))
part-Reads v x n b len e h = record {
  count = omega (arith, length-take n (drop (x % 512) b), length-drop (x % 512) b);
  bytes = λ k p.
      get_or-take n (drop (x % 512) b) k 0 p
      ∙ get_or-drop (x % 512) b k 0
      ∙ ap (λ c. get_or c (x % 512 + k) 0) (sym e)
      ∙ byte_at_cong v _ _ (x + k) (omega arith) (omega arith);
}

-- What is read depends on the bytes of the sectors read alone.
pub Reads-cong :
    (v v' : ℕ → List ℕ) (x n : ℕ) (msg : List ℕ)
    → ((s : ℕ) → s < 2 ^ 15 → v' s ≡ v s)
    → x + n ≤ 2 ^ 24
    → Reads v' x n msg
    → Reads v x n msg
Reads-cong v v' x n msg same h r = record {
  count = r.count;
  bytes = λ k p.
      r.bytes k p
      ∙ ap (λ b. get_or b ((x + k) % 512) 0) (same ((x + k) / 512 % 2 ^ 16) (omega arith));
}

read_part-Reads :
    (m : Media) (ata x n : ℕ)
    → IsFormatted m
    → x % 512 + n ≤ 512
    → Reads (disk_bytes m ata) x n (read_part m ata (x / 512 % 2 ^ 16) (x % 512) n)
unfolding read_part
read_part-Reads m ata x n f h =
    let s = x / 512 % 2 ^ 16 in
    part-Reads (disk_bytes m ata) x n (disk_bytes m ata s)
      (omega (arith, length-sector_bytes (m ata s), f ata s)) refl h

pub Reads-none : (v : ℕ → List ℕ) (x n : ℕ) → n ≡ 0 → Reads v x n []
Reads-none v x n e = record { count = omega arith; bytes = λ k p. absurd (omega arith) }

-- One round of the loop of `ata_read`, before the rounds that follow it.
read_round-Reads :
    (m : Media) (ata x bytes : ℕ) (rest : List ℕ)
    → IsFormatted m
    → Reads (disk_bytes m ata) (u16 (x / 512 % 2 ^ 16 + 1) * 512 + 0) (bytes - (512 - x % 512)) rest
    → Reads (disk_bytes m ata) x bytes (
        if bytes == 0
        then []
        else if ltb 512 (x % 512 + bytes)
        then read_part m ata (x / 512 % 2 ^ 16) (x % 512) (512 - x % 512) ++ rest
        else read_part m ata (x / 512 % 2 ^ 16) (x % 512) bytes)
read_round-Reads m ata x bytes rest f ih = elim (Bool-cases (bytes == 0)) [
  | inl z ↦ rw z (Reads-none _ _ _ (ground arith))
  | inr nz ↦ elim (Bool-cases (ltb 512 (x % 512 + bytes))) [
    | inl more ↦
        rw (nz, more)
          (Reads-append (disk_bytes m ata) x bytes _ _ rest
            (read_part-Reads m ata x (512 - x % 512) f (omega arith)) ih (ground arith)
            (omega arith))
    | inr last ↦ rw (nz, last) (read_part-Reads m ata x bytes f (ground arith))
  ]
]

read_loop-Reads :
    (fuel : ℕ) (m : Media) (ata bytes sector offset : ℕ)
    → IsFormatted m
    → sector < 2 ^ 16
    → bytes ≤ fuel
    → Reads
        (disk_bytes m ata)
        (sector * 512 + offset)
        bytes
        (read_loop fuel m ata bytes sector offset)
unfolding read_loop
read_loop-Reads zero m ata bytes sector offset f hs h = Reads-none _ _ _ (omega arith)
read_loop-Reads (suc fuel) m ata bytes sector offset f hs h =
    let x = sector * 512 + offset in
    rw (ata_normalize_lem sector offset hs) (
      read_round-Reads m ata x bytes _ f (
        read_loop-Reads fuel m ata (bytes - (512 - x % 512)) (u16 (x / 512 % 2 ^ 16 + 1)) 0 f
          (omega arith) (omega arith)))

-- A read of any length from a disk of the machine yields the bytes of its row from the address on,
-- across sector bounds and round the last of the 2 ^ 16 sectors; any other disk is refused.
pub ata_read_lem :
    (m : Media) (ata bytes sector offset : ℕ)
    → IsFormatted m
    → sector < 2 ^ 16
    → is_disk ata ≡ true
    → (msg : List ℕ) × (ata_read m ata bytes sector offset ≡ some msg)
      × Reads (disk_bytes m ata) (sector * 512 + offset) bytes msg
unfolding ata_read
ata_read_lem m ata bytes sector offset f hs d = (
  read_loop bytes m ata bytes sector offset,
  rw d,
  read_loop-Reads bytes m ata bytes sector offset f hs (omega arith),
)
