-- ===== src/Driver/Ata/Store.antt =====
-- What a write of any length leaves on the disk, seen as one row of bytes.
use so2c2011tp.Prelude.{
  ℕ, zero, suc, ◌+◌, ◌-◌, ◌*◌, ◌/◌, ◌%◌, ◌^◌, ◌≤◌, ◌<◌, ◌≡◌, inl, inr, refl, ◌∙◌, ap, true, some,
  List, arith, length, ◌==◌, ltb, if◌then◌else◌, Bool-cases, AreBytes, take, drop, length-take,
  length-drop, take-AreBytes, drop-AreBytes, get_or, take_all, ext_get_or,
}
use so2c2011tp.Driver.Ata.{Media, write_part, write_loop, u16, is_disk, ata_read, ata_write}
use so2c2011tp.Driver.Ata.Flat.{IsFormatted, ata_read_lem, ata_normalize_lem}
use so2c2011tp.Driver.Ata.Part.{
  Written, Writes-append, Written-none, write_part-Written, write_part-IsFormatted,
}

-- One round of the loop of `ata_write`, before the rounds that follow it.
write_round-Written :
    (m m' : Media) (ata x bytes : ℕ) (msg : List ℕ)
    → IsFormatted m
    → AreBytes msg
    → length msg ≡ bytes
    → x < 2 ^ 25
    → x + bytes ≤ 2 ^ 25
    → let size = 512 - x % 512 in
      (512 < x % 512 + bytes
        → Written
            (write_part m ata (take size msg) (x / 512 % 2 ^ 16) (x % 512))
            m'
            ata
            (u16 (x / 512 % 2 ^ 16 + 1) * 512 + 0)
            (bytes - size)
            (drop size msg))
      → Written m
          (if bytes == 0
            then m
            else if ltb 512 (x % 512 + bytes)
            then m'
            else write_part m ata (take bytes msg) (x / 512 % 2 ^ 16) (x % 512))
          ata
          x
          bytes
          msg
write_round-Written m m' ata x bytes msg f b len hx fit ih = elim (Bool-cases (bytes == 0)) [
  | inl z ↦ rw z (Written-none m ata x bytes msg f (ground arith))
  | inr nz ↦ elim (Bool-cases (ltb 512 (x % 512 + bytes))) [
    | inl more ↦ rw (nz, more) (both (ground arith))
    | inr last ↦
        rw (nz, last, take_all bytes msg (omega arith))
          (write_part-Written m ata x bytes msg f b hx (ground arith) len)
  ]
]
  where
    size : ℕ
    size = 512 - x % 512

    both : 512 < x % 512 + bytes → Written m m' ata x bytes msg
    both more =
        let first =
          write_part-Written m ata x size (take size msg) f (take-AreBytes size msg b) hx
            (omega arith) (omega (arith, length-take size msg)) in
        let then_rest = ih more in
        record {
          formatted = then_rest.formatted;
          row =
              Writes-append _ _ _ _ x bytes size _ msg first.row then_rest.row (omega arith)
                (omega arith);
          others = λ ata' s ne. then_rest.others ata' s ne ∙ first.others ata' s ne;
        }

write_loop-Written :
    (fuel : ℕ) (m : Media) (ata : ℕ) (msg : List ℕ) (bytes sector offset : ℕ)
    → IsFormatted m
    → AreBytes msg
    → length msg ≡ bytes
    → sector < 2 ^ 16
    → sector * 512 + offset < 2 ^ 25
    → sector * 512 + offset + bytes ≤ 2 ^ 25
    → bytes ≤ fuel
    → Written m
        (write_loop fuel m ata msg bytes sector offset)
        ata
        (sector * 512 + offset)
        bytes
        msg
unfolding write_loop
write_loop-Written zero m ata msg bytes sector offset f b len hs hx fit h =
    Written-none m ata _ bytes msg f (omega arith)
write_loop-Written (suc fuel) m ata msg bytes sector offset f b len hs hx fit h =
    let x = sector * 512 + offset in
    let size = 512 - x % 512 in
    rw (ata_normalize_lem sector offset hs) (
      write_round-Written m _ ata x bytes msg f b len hx fit (λ more.
        write_loop-Written fuel (write_part m ata (take size msg) (x / 512 % 2 ^ 16) (x % 512)) ata
          (drop size msg) (bytes - size) (u16 (x / 512 % 2 ^ 16 + 1)) 0
          (write_part-IsFormatted m ata (x / 512 % 2 ^ 16) (x % 512) (take size msg) f)
          (drop-AreBytes size msg b) (omega (arith, length-drop size msg)) (omega arith)
          (omega arith) (omega arith) (omega arith)))

-- A write of the bytes `msg` to a formatted disk, in its range of addresses, stores each of them in
-- the row, from the address on, and changes no other byte of that disk and nothing of any other
-- disk.
pub ata_write_lem :
    (m : Media) (ata : ℕ) (msg : List ℕ) (sector offset : ℕ)
    → IsFormatted m
    → AreBytes msg
    → sector < 2 ^ 16
    → sector * 512 + offset < 2 ^ 25
    → sector * 512 + offset + length msg ≤ 2 ^ 25
    → is_disk ata ≡ true
    → (m' : Media) × (ata_write m ata msg (length msg) sector offset ≡ some m')
      × Written m m' ata (sector * 512 + offset) (length msg) msg
unfolding ata_write
ata_write_lem m ata msg sector offset f b hs hx fit d = (
  write_loop (length msg) m ata msg (length msg) sector offset,
  rw d,
  write_loop-Written (length msg) m ata msg (length msg) sector offset f b refl hs hx fit
      (omega arith),
)

-- A write of the bytes `msg` to a formatted disk, in its range of addresses, and a read of as many
-- bytes from the same address give `msg` back.
pub ata_read-ata_write :
    (m : Media) (ata : ℕ) (msg : List ℕ) (sector offset : ℕ)
    → IsFormatted m
    → AreBytes msg
    → sector < 2 ^ 16
    → sector * 512 + offset < 2 ^ 25
    → sector * 512 + offset + length msg ≤ 2 ^ 25
    → is_disk ata ≡ true
    → (m' : Media) × (ata_write m ata msg (length msg) sector offset ≡ some m')
      × (ata_read m' ata (length msg) sector offset ≡ some msg)
ata_read-ata_write m ata msg sector offset f b hs hx fit d =
    let x = sector * 512 + offset in
    let (m', wrote, w) = ata_write_lem m ata msg sector offset f b hs hx fit d in
    let (got, reads, r) = ata_read_lem m' ata (length msg) sector offset w.formatted hs d in
    let same : got ≡ msg = ext_get_or 0 got msg r.count (λ k p.
      r.bytes k (omega (arith, r.count))
      ∙ w.row.at_each (x + k) (omega (arith, r.count))
      ∙ (ground
          (arith, r.count, ap (λ n. get_or msg n 0) {x = x + k - x} {y = k} (omega arith)))) in
    (m', wrote, reads ∙ ap some same)
