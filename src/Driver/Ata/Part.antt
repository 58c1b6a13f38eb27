-- ===== src/Driver/Ata/Part.antt =====
-- What a write of one part of a sector (`write_part`) leaves, seen as one row of bytes.
use so2c2011tp.Prelude.{
  ℕ, ◌+◌, ◌-◌, ◌*◌, ◌/◌, ◌%◌, ◌^◌, ◌≤◌, ◌<◌, ◌≡◌, ◌≢◌, ◌⊎◌, inl, inr, refl, ◌∙◌, ◌&&◌, List, arith,
  length, ◌==◌, ltb, leb, if◌then◌else◌, Bool-cases, AreBytes, overlay, take, drop, length-overlay,
  overlay-AreBytes, get_or, get_or-take, get_or-drop, get_or-overlay, take_all,
}
use so2c2011tp.Driver.Ata.{Media, read_part, write_part}
use so2c2011tp.Driver.Ata.Words.{
  length-sector_bytes, sector_bytes-AreBytes, sector_bytes-sector_words, length-sector_words,
}
use so2c2011tp.Driver.Ata.Flat.{IsFormatted, byte_at, disk_bytes}

-- What a transfer of the `n` bytes of `msg` to address `x` has done to the bytes below `lim`.
pub record Writes (lim : ℕ) (v v' : ℕ → List ℕ) (x n : ℕ) (msg : List ℕ) : Type 0 where
  pub at_each :
      (y : ℕ)
      → y < lim
      → byte_at v' y ≡ (if leb x y && ltb y (x + n) then get_or msg (y - x) 0 else byte_at v y)

pub Writes-append :
    (lim : ℕ) (v v' v'' : ℕ → List ℕ) (x n k z : ℕ) (msg : List ℕ)
    → Writes lim v v' x k (take k msg)
    → Writes lim v' v'' z (n - k) (drop k msg)
    → k ≤ n
    → (z ≡ x + k) ⊎ (n ≡ k)
    → Writes lim v v'' x n msg
Writes-append lim v v' v'' x n k z msg a b h e = record {
  at_each = λ y p.
      step y p (get_or-drop k msg (y - z) 0) (get_or-take k msg (y - x) 0) (a.at_each y p)
        (b.at_each y p);
}
  where
    step :
        (y : ℕ)
        → y < lim
        → get_or (drop k msg) (y - z) 0 ≡ get_or msg (k + (y - z)) 0
        → (y - x < k → get_or (take k msg) (y - x) 0 ≡ get_or msg (y - x) 0)
        → byte_at v' y
          ≡ (if leb x y && ltb y (x + k) then get_or (take k msg) (y - x) 0 else byte_at v y)
        → byte_at v'' y
          ≡ (if leb z y && ltb y (z + (n - k)) then get_or (drop k msg) (y - z) 0 else byte_at v' y)
        → byte_at v'' y ≡ (if leb x y && ltb y (x + n) then get_or msg (y - x) 0 else byte_at v y)
    step y p d t one two = ground arith

-- The sector that a part is written to, and those that it is not.
pub write_part_lem :
    (m : Media) (ata s o : ℕ) (msg : List ℕ) (ata' s' : ℕ)
    → IsFormatted m
    → AreBytes msg
    → disk_bytes (write_part m ata msg s o) ata' s' ≡ (
        if (ata' == ata) && (s' == s)
        then overlay (disk_bytes m ata s) o msg
        else disk_bytes m ata' s')
unfolding write_part read_part
write_part_lem m ata s o msg ata' s' f b = elim (Bool-cases ((ata' == ata) && (s' == s))) [
  | inl hit ↦
      rw (hit, take_all 512 (disk_bytes m ata s) (omega (arith, full)))
        (sector_bytes-sector_words 256 (overlay (disk_bytes m ata s) o msg)
          (omega (arith, length-overlay (disk_bytes m ata s) o msg, full))
          (overlay-AreBytes (disk_bytes m ata s) o msg (sector_bytes-AreBytes (m ata s)) b))
  | inr other ↦ rw other
]
  where
    full : length (disk_bytes m ata s) ≡ 512
    full = omega (arith, length-sector_bytes (m ata s), f ata s)

pub write_part-IsFormatted :
    (m : Media) (ata s o : ℕ) (msg : List ℕ)
    → IsFormatted m
    → IsFormatted (write_part m ata msg s o)
unfolding write_part read_part
write_part-IsFormatted m ata s o msg f ata' s' = elim (Bool-cases ((ata' == ata) && (s' == s))) [
  | inl hit ↦
      rw (hit, take_all 512 (disk_bytes m ata s) (omega (arith, full)))
        (length-sector_words 256 (overlay (disk_bytes m ata s) o msg)
          (omega (arith, length-overlay (disk_bytes m ata s) o msg, full)))
  | inr other ↦ rw other (f ata' s')
]
  where
    full : length (disk_bytes m ata s) ≡ 512
    full = omega (arith, length-sector_bytes (m ata s), f ata s)

-- New contents of one sector, seen in the row of bytes.
pub overlay-Writes :
    (lim : ℕ) (v v' : ℕ → List ℕ) (x n : ℕ) (msg : List ℕ)
    → ((s : ℕ)
        → s * 512 < lim
        → v' s
          ≡ (if s == (x / 512 % 2 ^ 16) then overlay (v (x / 512 % 2 ^ 16)) (x % 512) msg else v s))
    → length (v (x / 512 % 2 ^ 16)) ≡ 512
    → lim ≤ 2 ^ 25
    → x < 2 ^ 25
    → x % 512 + n ≤ 512
    → length msg ≡ n
    → Writes lim v v' x n msg
overlay-Writes lim v v' x n msg new full small hx h len = record {
  at_each = λ y p.
      step y p (new (y / 512 % 2 ^ 16) (omega arith))
        (get_or-overlay (v (x / 512 % 2 ^ 16)) (x % 512) msg (y % 512) 0 (omega (arith, full)));
}
  where
    step :
        (y : ℕ)
        → y < lim
        → v' (y / 512 % 2 ^ 16) ≡ (
            if (y / 512 % 2 ^ 16) == (x / 512 % 2 ^ 16)
            then overlay (v (x / 512 % 2 ^ 16)) (x % 512) msg
            else v (y / 512 % 2 ^ 16))
        → get_or (overlay (v (x / 512 % 2 ^ 16)) (x % 512) msg) (y % 512) 0 ≡ (
            if leb (x % 512) (y % 512) && ltb (y % 512) (x % 512 + length msg)
            then get_or msg (y % 512 - x % 512) 0
            else get_or (v (x / 512 % 2 ^ 16)) (y % 512) 0)
        → byte_at v' y ≡ (if leb x y && ltb y (x + n) then get_or msg (y - x) 0 else byte_at v y)
    step y p e e' = ground (arith, e, e')

write_part-Writes :
    (m : Media) (ata x n : ℕ) (msg : List ℕ)
    → IsFormatted m
    → AreBytes msg
    → x < 2 ^ 25
    → x % 512 + n ≤ 512
    → length msg ≡ n
    → Writes
        (2 ^ 25)
        (disk_bytes m ata)
        (disk_bytes (write_part m ata msg (x / 512 % 2 ^ 16) (x % 512)) ata)
        x
        n
        msg
write_part-Writes m ata x n msg f b hx h len =
    let s = x / 512 % 2 ^ 16 in
    overlay-Writes (2 ^ 25) (disk_bytes m ata) (disk_bytes (write_part m ata msg s (x % 512)) ata) x
      n msg (λ s' p. write_part_lem m ata s (x % 512) msg ata s' f b ∙ ground arith)
      (omega (arith, length-sector_bytes (m ata s), f ata s)) (omega arith) hx h len

-- What a write leaves: the bytes in their places, the other disks alone.
pub record Written (m m' : Media) (ata x n : ℕ) (msg : List ℕ) : Type 0 where
  pub formatted : IsFormatted m'
  pub row : Writes (2 ^ 25) (disk_bytes m ata) (disk_bytes m' ata) x n msg
  pub others : (ata' s : ℕ) → ata' ≢ ata → m' ata' s ≡ m ata' s

pub write_part-Written :
    (m : Media) (ata x n : ℕ) (msg : List ℕ)
    → IsFormatted m
    → AreBytes msg
    → x < 2 ^ 25
    → x % 512 + n ≤ 512
    → length msg ≡ n
    → Written m (write_part m ata msg (x / 512 % 2 ^ 16) (x % 512)) ata x n msg
unfolding write_part
write_part-Written m ata x n msg f b hx h len = record {
  formatted = write_part-IsFormatted m ata (x / 512 % 2 ^ 16) (x % 512) msg f;
  row = write_part-Writes m ata x n msg f b hx h len;
  others = λ ata' s ne. ground arith;
}

pub Written-none :
    (m : Media) (ata x n : ℕ) (msg : List ℕ) → IsFormatted m → n ≡ 0 → Written m m ata x n msg
Written-none m ata x n msg f e = record {
  formatted = f;
  row = record { at_each = λ y p. ground arith };
  others = λ ata' s ne. refl;
}
