-- ===== src/Fs/DiskCache/View.antt =====
-- What the cache and the disks stand for together: the cached contents of a sector, or else the
-- sector on its disk. And the invariant under which that is so.
use so2c2011tp.Prelude.{
  ℕ, ◌+◌, ◌-◌, ◌*◌, ◌<◌, ◌^◌, ◌≡◌, inl, inr, ap, sym, ◌∙◌, true, false, ◌&&◌, none, some, List,
  arith, Bool-cases, ◌==◌, ltb, leb, if◌then◌else◌, get_or, length, AreBytes, ext_get_or, ==_iff,
}
use so2c2011tp.Driver.Ata.{Media, sector_bytes, is_disk, ata_read, ata_write}
use so2c2011tp.Driver.Ata.Words.{length-sector_bytes}
use so2c2011tp.Driver.Ata.Flat.{IsFormatted, disk_bytes, byte_at, byte_at_cong, ata_read_lem}
use so2c2011tp.Driver.Ata.Part.{Written}
use so2c2011tp.Driver.Ata.Store.{ata_write_lem}
use so2c2011tp.Fs.DiskCache.{Cache, CachedSector, is_used, write_back, cache_size}
use so2c2011tp.Fs.DiskCache.Table.{lookup, Distinct, All}

-- The bytes that a client of the cache finds in a sector.
abbrev pub view : Cache → ℕ → ℕ → List ℕ
view st disk sector = elim (lookup st.table disk sector) [
  | none ↦ disk_bytes st.media disk sector
  | some c ↦ c.contents
]

-- An entry in use holds a sector of a disk, below 2 ^ 15; a clean one holds what the disk has.
pub record IsSound (m : Media) (c : CachedSector) : Type 0 where
  pub full : length c.contents ≡ 512
  pub bytes : AreBytes c.contents
  pub on_disk : is_used c ≡ true → (is_disk c.disk ≡ true) × (c.sector < 2 ^ 15)
  pub clean : is_used c ≡ true → c.dirty ≡ false → c.contents ≡ disk_bytes m c.disk c.sector
  pub idle : is_used c ≡ false → c.dirty ≡ false

pub record IsCoherent (st : Cache) : Type 0 where
  pub formatted : IsFormatted st.media
  pub entries : length st.table ≡ cache_size
  pub distinct : Distinct st.table
  pub sound : All (IsSound st.media) st.table

-- Two states that a client cannot tell apart.
abbrev pub SameView : Cache → Cache → Type 0
SameView st st' = (disk sector : ℕ) → sector < 2 ^ 15 → view st' disk sector ≡ view st disk sector

pub length-disk_bytes :
    (m : Media) (disk s : ℕ) → IsFormatted m → length (disk_bytes m disk s) ≡ 512
length-disk_bytes m disk s f = omega (arith, length-sector_bytes (m disk s), f disk s)

-- A whole sector is read as it is.
pub ata_read_sector :
    (m : Media) (disk s : ℕ)
    → IsFormatted m
    → s < 2 ^ 16
    → is_disk disk ≡ true
    → ata_read m disk 512 s 0 ≡ some (disk_bytes m disk s)
ata_read_sector m disk s f h d =
    let (got, reads, r) = ata_read_lem m disk 512 s 0 f h d in
    reads
    ∙ ap some (
        ext_get_or 0 got (disk_bytes m disk s)
          (omega (arith, r.count, length-disk_bytes m disk s f))
          (λ k p.
            r.bytes k (omega (arith, r.count))
            ∙ sym (
                byte_at_cong (disk_bytes m disk) s k (s * 512 + 0 + k) (omega (arith, r.count))
                  (omega (arith, r.count)))))

-- A disk on which one sector has new contents.
pub record Replaced (m m' : Media) (disk s : ℕ) (b : List ℕ) : Type 0 where
  pub formatted : IsFormatted m'
  pub sectors :
      (disk' s' : ℕ)
      → s' < 2 ^ 16
      → disk_bytes m' disk' s' ≡ (if (s' == s) && (disk' == disk) then b else disk_bytes m disk' s')

write_back-some :
    (m : Media) (c : CachedSector) {m' : Media}
    → ata_write m c.disk c.contents 512 c.sector 0 ≡ some m'
    → write_back m c ≡ m'
unfolding write_back
write_back-some m c e = rw (e, write_back)

-- The write of a whole sector replaces it, and nothing else.
write_sector-Replaced :
    (m m' : Media) (disk s : ℕ) (b : List ℕ)
    → IsFormatted m
    → s < 2 ^ 16
    → length b ≡ 512
    → Written m m' disk (s * 512 + 0) (length b) b
    → Replaced m m' disk s b
write_sector-Replaced m m' disk s b f h len w = record {
  formatted = w.formatted;
  sectors = λ disk' s' p. elim (Bool-cases (disk' == disk)) [
    | inl same ↦ rw ((==_iff disk' disk).0 same) (on_disk s' p)
    | inr other ↦ ground (arith, ap sector_bytes (w.others disk' s' (ground arith)))
  ];
}
  where
    target : ℕ → List ℕ
    target s' = if (s' == s) && (disk == disk) then b else disk_bytes m disk s'

    byte :
        (s' k : ℕ)
        → s' < 2 ^ 16
        → k < 512
        → get_or (disk_bytes m' disk s') k 0 ≡ byte_at (disk_bytes m' disk) (s' * 512 + k)
        → byte_at (disk_bytes m' disk) (s' * 512 + k) ≡ (
            if leb (s * 512 + 0) (s' * 512 + k) && ltb (s' * 512 + k) (s * 512 + 0 + length b)
            then get_or b (s' * 512 + k - (s * 512 + 0)) 0
            else byte_at (disk_bytes m disk) (s' * 512 + k))
        → get_or (disk_bytes m disk s') k 0 ≡ byte_at (disk_bytes m disk) (s' * 512 + k)
        → get_or (disk_bytes m' disk s') k 0 ≡ get_or (target s') k 0
    byte s' k p q e1 e2 e3 = ground arith

    on_disk : (s' : ℕ) → s' < 2 ^ 16 → disk_bytes m' disk s' ≡ target s'
    on_disk s' p =
        ext_get_or 0 (disk_bytes m' disk s') (target s')
          (ground (arith, length-disk_bytes m' disk s' w.formatted, length-disk_bytes m disk s' f))
          (λ k q.
            let q' : k < 512 = omega (arith, q, length-disk_bytes m' disk s' w.formatted) in
            byte s' k p q'
              (byte_at_cong (disk_bytes m' disk) s' k (s' * 512 + k) (omega arith) (omega arith))
              (w.row.at_each (s' * 512 + k) (omega arith))
              (byte_at_cong (disk_bytes m disk) s' k (s' * 512 + k) (omega arith) (omega arith)))

pub write_back_lem :
    (m : Media) (c : CachedSector)
    → IsFormatted m
    → length c.contents ≡ 512
    → AreBytes c.contents
    → is_disk c.disk ≡ true
    → c.sector < 2 ^ 16
    → Replaced m (write_back m c) c.disk c.sector c.contents
write_back_lem m c f len b d h =
    let (m', wrote, w) =
      ata_write_lem m c.disk c.contents c.sector 0 f b h (omega arith) (omega arith) d in
    let wrote' = ap (λ n. ata_write m c.disk c.contents n c.sector 0) (sym len) ∙ wrote in
    rw (write_back-some m c wrote')
      (write_sector-Replaced m m' c.disk c.sector c.contents f h len w)
