-- ===== src/Fs/Strategy/Instances.antt =====
-- The two strategies of `diskManager_init`: the driver and the cache. Both keep the laws.
use so2c2011tp.Prelude.{
  ℕ, ◌/◌, ◌%◌, ◌^◌, ◌≡◌, refl, ap, ◌∙◌, inl, inr, Option, none, some, List, [], ◌∷◌, arith, length,
  ◌==◌, get_or, AreBytes, Bool-cases, get_or-AreBytes, ==_iff,
}
use so2c2011tp.Driver.Ata.{Media, sector_bytes, ata_read, ata_write}
use so2c2011tp.Driver.Ata.Words.{sector_bytes-AreBytes}
use so2c2011tp.Driver.Ata.Flat.{IsFormatted, Reads, byte_at, disk_bytes, ata_read_lem}
use so2c2011tp.Driver.Ata.Part.{Written}
use so2c2011tp.Driver.Ata.Store.{ata_write_lem}
use so2c2011tp.Fs.DiskCache.{Cache, CachedSector, disk_cache_read, disk_cache_write}
use so2c2011tp.Fs.DiskCache.Table.{lookup, All, is_at}
use so2c2011tp.Fs.DiskCache.View.{view, IsSound, IsCoherent}
use so2c2011tp.Fs.DiskCache.Transfer.{disk_cache_read_lem}
use so2c2011tp.Fs.DiskCache.Write as CacheWrite
use so2c2011tp.Fs.DiskCache.Write.{disk_cache_write_lem}
use so2c2011tp.Fs.Strategy.{Strategy}
use so2c2011tp.Fs.Strategy.Laws.{IsDrive, Slice, Overwritten}

-- `S_DIRECT_ACCESS`
abbrev pub direct_access : Strategy Media
direct_access = record {
  read = λ m disk bytes sector offset. (ata_read m disk bytes sector offset, m);
  write = λ m disk msg sector offset. ata_write m disk msg (length msg) sector offset;
}

-- `S_LRU_CACHE`; the error of the driver for a disk that does not exist is not passed on.
abbrev pub lru_cache : Strategy Cache
lru_cache = record {
  read = λ st disk bytes sector offset.
      (let (msg, st') = disk_cache_read st disk bytes sector offset in (some msg, st'));
  write =
      λ st disk msg sector offset. some (disk_cache_write st disk msg (length msg) sector offset);
}

Reads-Slice :
    (v : ℕ → List ℕ) (x n : ℕ) (msg : List ℕ) → Reads v x n msg → Slice (byte_at v) x n msg
Reads-Slice v x n msg r = record { count = r.count; bytes = r.bytes }

Written-Overwritten :
    (m m' : Media) (ata x : ℕ) (msg : List ℕ)
    → Written m m' ata x (length msg) msg
    → Overwritten (λ d. byte_at (disk_bytes m d)) (λ d. byte_at (disk_bytes m' d)) ata x msg
Written-Overwritten m m' ata x msg w d y h = elim (Bool-cases (d == ata)) [
  | inl same ↦ rw ((==_iff d ata).0 same) (w.row.at_each y (omega arith) ∙ ground arith)
  | inr other ↦ rw other (
      ap (λ ws. get_or (sector_bytes ws) (y % 512) 0)
        (w.others d (y / 512 % 2 ^ 16) (ground arith)))
]

pub direct_access-IsDrive : IsDrive direct_access
direct_access-IsDrive = record {
  IsGood = IsFormatted;
  byte = λ m d. byte_at (disk_bytes m d);
  byte_bound =
      λ m d x f. get_or-AreBytes _ (x % 512) (sector_bytes-AreBytes (m d (x / 512 % 2 ^ 16)));
  read_lem = λ m disk bytes sector offset f d h.
      (let (msg, e, r) = ata_read_lem m disk bytes sector offset f (omega arith) d in
        (msg, m, ap (λ o. (o, m)) e, Reads-Slice _ _ _ _ r, f, λ _ _ _. refl));
  write_lem = λ m disk msg sector offset f d b h.
      (let (m', e, w) =
          ata_write_lem m disk msg sector offset f b (omega arith) (omega arith) (omega arith) d in
        (m', e, w.formatted, Written-Overwritten m m' disk _ msg w));
}

lookup-AreBytes :
    (m : Media) (cs : List CachedSector) (disk s : ℕ) {c : CachedSector}
    → All (IsSound m) cs
    → lookup cs disk s ≡ some c
    → AreBytes c.contents
lookup-AreBytes m [] disk s h e = cc
lookup-AreBytes m (x ∷ cs) disk s {c} h e = elim (Bool-cases (is_at x disk s)) [
  | inl hit ↦ (let found : x ≡ c = ground arith in rw (← found) h.0.bytes)
  | inr miss ↦ lookup-AreBytes m cs disk s {c = c} h.1 (ground arith)
]

view-AreBytes : (st : Cache) (disk s : ℕ) → IsCoherent st → AreBytes (view st disk s)
view-AreBytes st disk s co = seen (lookup st.table disk s) refl
  where
    seen :
        (o : Option CachedSector)
        → lookup st.table disk s ≡ o
        → AreBytes (elim o [ none ↦ disk_bytes st.media disk s | some c ↦ c.contents ])
    seen none e = sector_bytes-AreBytes (st.media disk s)
    seen (some c) e = lookup-AreBytes st.media st.table disk s co.sound e

Stored-Overwritten :
    (st st' : Cache) (disk x : ℕ) (msg : List ℕ)
    → CacheWrite.Stored st disk x (length msg) msg st'
    → Overwritten (λ d. byte_at (view st d)) (λ d. byte_at (view st' d)) disk x msg
Stored-Overwritten st st' disk x msg w d y h = elim (Bool-cases (d == disk)) [
  | inl same ↦ rw ((==_iff d disk).0 same) (w.row.at_each y (omega arith) ∙ ground arith)
  | inr other ↦
      rw other (
        ap (λ b. get_or b (y % 512) 0) (w.others d (y / 512 % 2 ^ 16) (omega arith) (ground arith)))
]

pub lru_cache-IsDrive : IsDrive lru_cache
lru_cache-IsDrive = record {
  IsGood = IsCoherent;
  byte = λ st d. byte_at (view st d);
  byte_bound = λ st d x co. get_or-AreBytes _ (x % 512) (view-AreBytes st d (x / 512 % 2 ^ 16) co);
  read_lem = λ st disk bytes sector offset co d h.
      (let (r, co', same) = disk_cache_read_lem st disk bytes sector offset co d h in
        (
          _,
          _,
          refl,
          Reads-Slice _ _ _ _ r,
          co',
          λ d y p. ap (λ b. get_or b (y % 512) 0) (same d (y / 512 % 2 ^ 16) (omega arith)),
        ));
  write_lem = λ st disk msg sector offset co d b h.
      (let w = disk_cache_write_lem st disk msg sector offset co d b h in
        (_, refl, w.coherent, Stored-Overwritten st _ disk _ msg w));
}

-- A coherent cache is a state that the laws speak of.
pub lru_cache-IsGood : (st : Cache) → IsCoherent st → lru_cache-IsDrive.IsGood st
unfolding lru_cache-IsDrive
lru_cache-IsGood st co = co
