-- ===== src/Fs/DiskCache/Laws.antt =====
-- The cache at the start, writes read back, and the sectors that it never finds.
use so2c2011tp.Prelude.{
  ℕ, zero, suc, ◌+◌, ◌-◌, ◌*◌, ◌<◌, ◌≤◌, ◌^◌, ◌≡◌, ap, refl, ◌∙◌, true, false, none, List, [], ◌∷◌,
  arith, leb, length, get_or, replicate, AreBytes, ext_get_or, take, drop,
}
use so2c2011tp.Driver.Ata.{Media, is_disk, ata_normalize}
use so2c2011tp.Driver.Ata.Flat.{IsFormatted, disk_bytes}
use so2c2011tp.Fs.DiskCache.{
  Cache, CachedSector, blank, is_used, cache_size, cache_index, to_short, disk_cache_init,
  disk_cache_read, disk_cache_write, locate, read_calls, write_calls, read_body, write_body, store,
}
use so2c2011tp.Fs.DiskCache.View.{view, IsSound, IsCoherent, ata_read_sector}
use so2c2011tp.Fs.DiskCache.Locate.{loaded}
use so2c2011tp.Fs.DiskCache.Transfer.{disk_cache_read_lem}
use so2c2011tp.Fs.DiskCache.Write.{disk_cache_write_lem}

zeros-AreBytes : (n : ℕ) → AreBytes (replicate n 0)
zeros-AreBytes zero = tt
zeros-AreBytes (suc n) = (omega arith, zeros-AreBytes n)

blank-IsSound : (m : Media) → IsSound m blank
blank-IsSound m = record {
  full = refl;
  bytes = zeros-AreBytes 512;
  on_disk = λ u. cc;
  clean = λ u. cc;
  idle = λ _. refl;
}

-- The static table at the start, after `diskCache_init`: coherent, and the client sees the disks.
pub disk_cache_init-IsCoherent :
    (m : Media)
    → IsFormatted m
    → let st = disk_cache_init (record { table = replicate cache_size blank; media = m }) in
      IsCoherent st × ((disk s : ℕ) → view st disk s ≡ disk_bytes m disk s)
unfolding disk_cache_init
disk_cache_init-IsCoherent m f =
    let b = blank-IsSound m in
    (
      record {
        formatted = f;
        entries = refl;
        distinct = ground arith;
        sound = (b, (b, (b, (b, (b, (b, (b, (b, (b, (b, tt))))))))));
      },
      λ disk s. refl,
    )

-- In a coherent state, what was written through the cache below sector 2 ^ 15 is what a read of the
-- same place through the cache yields.
pub disk_cache_read-disk_cache_write :
    (st : Cache) (disk : ℕ) (msg : List ℕ) (sector offset : ℕ)
    → IsCoherent st
    → is_disk disk ≡ true
    → AreBytes msg
    → sector * 512 + offset + length msg < 2 ^ 24
    → (disk_cache_read
        (disk_cache_write st disk msg (length msg) sector offset)
        disk
        (length msg)
        sector
        offset).0
      ≡ msg
disk_cache_read-disk_cache_write st disk msg sector offset co d b h =
    let x = sector * 512 + offset in
    let w = disk_cache_write_lem st disk msg sector offset co d b h in
    let (r, _, _) =
      disk_cache_read_lem (disk_cache_write st disk msg (length msg) sector offset) disk
        (length msg) sector offset w.coherent d h in
    ext_get_or 0 _ msg r.count (λ k p.
      r.bytes k (omega (arith, r.count))
      ∙ w.row.at_each (x + k) (omega (arith, r.count))
      ∙ (ground (arith, r.count, ap (λ n. get_or msg n 0) {x = x + k - x} {y = k} (omega arith))))

-- From sector 2 ^ 15 on `_cacheIndex` compares an `unsigned short` with a negative `short`.
pub cache_index_high :
    (cs : List CachedSector) (disk s : ℕ) → 2 ^ 15 ≤ s → cache_index cs disk (to_short s) ≡ none
unfolding cache_index to_short
cache_index_high [] disk s h = refl
cache_index_high (c ∷ cs) disk s h = ground (arith, cache_index_high cs disk s h)

abbrev state : List CachedSector → Media → Cache
state table m = record { table = table; media = m }

locate_first :
    (m : Media) (rest : List CachedSector) (disk s : ℕ)
    → IsFormatted m
    → is_disk disk ≡ true
    → 2 ^ 15 ≤ s
    → s < 2 ^ 16
    → locate (state (blank ∷ rest) m) disk s ≡ (0, state (loaded m disk s ∷ rest) m)
unfolding locate
locate_first m rest disk s f d lo hi =
    rw (cache_index_high (blank ∷ rest) disk s lo, locate) (rw (ata_read_sector m disk s f hi d))

locate_second :
    (m : Media) (c : CachedSector) (rest : List CachedSector) (disk s : ℕ)
    → IsFormatted m
    → is_disk disk ≡ true
    → 2 ^ 15 ≤ s
    → s < 2 ^ 16
    → is_used c ≡ true
    → locate (state (c ∷ blank ∷ rest) m) disk s ≡ (1, state (c ∷ loaded m disk s ∷ rest) m)
unfolding locate
locate_second m c rest disk s f d lo hi u =
    rw (cache_index_high (c ∷ blank ∷ rest) disk s lo, locate)
      (ground (arith, ata_read_sector m disk s f hi d))

normalize_inside : (s o : ℕ) → o < 512 → ata_normalize s o ≡ (s, o)
unfolding ata_normalize
normalize_inside s o h = ground arith

-- The table after a write inside the first sector that is cached.
write_first :
    (m : Media) (rest : List CachedSector) (disk s o : ℕ) (msg : List ℕ)
    → IsFormatted m
    → is_disk disk ≡ true
    → 2 ^ 15 ≤ s
    → s < 2 ^ 16
    → o + length msg < 512
    → disk_cache_write (state (blank ∷ rest) m) disk msg (length msg) s o
      ≡ state (store o (take (length msg) msg) (loaded m disk s) ∷ rest) m
unfolding disk_cache_write write_calls write_body
write_first m rest disk s o msg f d lo hi fit =
    let one_more : length msg + 1 ≡ suc (length msg) = omega arith in
    let inside : leb 512 (o + length msg) ≡ false = ground arith in
    rw one_more (
      rw (normalize_inside s o (omega arith))
        (rw (locate_first m rest disk s f d lo hi) (rw inside)))

read_second :
    (m : Media) (c : CachedSector) (rest : List CachedSector) (disk s o n : ℕ)
    → IsFormatted m
    → is_disk disk ≡ true
    → 2 ^ 15 ≤ s
    → s < 2 ^ 16
    → is_used c ≡ true
    → o + n < 512
    → (disk_cache_read (state (c ∷ blank ∷ rest) m) disk n s o).0
      ≡ take n (drop o (disk_bytes m disk s))
unfolding disk_cache_read read_calls read_body
read_second m c rest disk s o n f d lo hi u fit =
    let one_more : n + 1 ≡ suc n = omega arith in
    let inside : leb 512 (o + n) ≡ false = ground arith in
    rw one_more (
      rw (normalize_inside s o (omega arith))
        (rw (locate_second m c rest disk s f d lo hi u) (rw inside)))

-- In a cache whose first two entries are still the blank ones of a cache never used, over formatted
-- disks, a write to a sector from 2 ^ 15 on that stays inside it is not read back: a read of the same
-- bytes yields what the disk still holds.
pub high_sector_lost :
    (m : Media) (rest : List CachedSector) (disk s o : ℕ) (msg : List ℕ)
    → IsFormatted m
    → is_disk disk ≡ true
    → 2 ^ 15 ≤ s
    → s < 2 ^ 16
    → o + length msg < 512
    → (disk_cache_read
        (disk_cache_write (state (blank ∷ blank ∷ rest) m) disk msg (length msg) s o)
        disk
        (length msg)
        s
        o).0
      ≡ take (length msg) (drop o (disk_bytes m disk s))
high_sector_lost m rest disk s o msg f d lo hi fit =
    rw (write_first m (blank ∷ rest) disk s o msg f d lo hi fit)
      (read_second m _ rest disk s o (length msg) f d lo hi refl fit)
