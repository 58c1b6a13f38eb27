-- ===== src/Fs/DiskCache.antt =====
-- src/fs/diskCache.c: a write-back cache of ten sectors before the disk driver.
-- The state is the static table `cachedData` beside the disks; a pointer into the table is an index.
pub mod Table
pub mod View
pub mod Evict
pub mod Locate
pub mod Update
pub mod Transfer
pub mod Write
pub mod Flush
pub mod Laws
mod Tests
use so2c2011tp.Prelude.{
  ℕ, zero, suc, ◌+◌, ◌-◌, ◌<◌, ◌^◌, Bool, true, false, ◌&&◌, Option, none, some, List, [], ◌∷◌,
  ◌++◌, ◌==◌, ltb, leb, if◌then◌else◌, take, drop, set, get_or, replicate, overlay, length,
}
use so2c2011tp.Prelude.Int.{ℤ, pos, negsuc, ◌==ℤ◌}
use so2c2011tp.Driver.Ata.{Media, sector_size, u16, ata_normalize, ata_read, ata_write}

-- `cachedSector`; an `accessCount` of -1 is `none`. The field `age` is never used.
pub record CachedSector : Type 0 where
  pub disk : ℕ
  pub sector : ℕ
  pub contents : List ℕ
  pub dirty : Bool
  pub access_count : Option ℕ

pub record Cache : Type 0 where
  pub table : List CachedSector
  pub media : Media

abbrev pub cache_size : ℕ
cache_size = 10

-- An entry of the static table at the start.
abbrev pub blank : CachedSector
blank = record {
  disk = 0;
  sector = 0;
  contents = replicate sector_size 0;
  dirty = false;
  access_count = none;
}

-- The conversion of an `unsigned short` to the `short` of a parameter.
pub to_short : ℕ → ℤ
to_short n = if ltb n (2 ^ 15) then pos n else negsuc (2 ^ 16 - n - 1)

abbrev pub is_used : CachedSector → Bool
is_used c = elim c.access_count [ none ↦ false | some _ ↦ true ]

-- `_cacheIndex`, whose parameter `sector` is a `short`.
pub cache_index : List CachedSector → ℕ → ℤ → Option ℕ
cache_index [] disk sector = none
cache_index (c ∷ cs) disk sector =
    if is_used c && (pos c.sector ==ℤ sector) && (c.disk == disk)
    then some 0
    else (elim (cache_index cs disk sector) [ none ↦ none | some i ↦ some (suc i) ])

-- How the loop of `_nextFreeIndex` ends: at an entry never used, or with one to be replaced.
pub data Choice : Type 0 where
  unused : ℕ → Choice
  replace : ℕ → Choice

abbrev pub count_at : List CachedSector → ℕ → ℕ
count_at cs i = elim (get_or cs i blank).access_count [ none ↦ 0 | some n ↦ n ]

-- `cs` are the entries from `i` on; `best` is `nextTofree`. The count of each entry up to `i` is
-- not -1 when it is compared.
pub choose_entry : List CachedSector → List CachedSector → ℕ → ℕ → Choice
choose_entry table [] i best = replace best
choose_entry table (c ∷ cs) i best = elim c.access_count [
  | none ↦ unused i
  | some n ↦ choose_entry table cs (i + 1) (if ltb n (count_at table best) then i else best)
]

-- The write of an entry to its disk; the driver refuses a disk that is none.
pub write_back : Media → CachedSector → Media
write_back m c = elim (ata_write m c.disk c.contents sector_size c.sector 0) [
  | none ↦ m
  | some m' ↦ m'
]

pub next_free_index : Cache → ℕ × Cache
unfolding choose_entry write_back
next_free_index st = elim (choose_entry st.table st.table 0 0) [
  | unused i ↦ (i, st)
  | replace i ↦
      (let c = get_or st.table i blank in
        (i, if c.dirty then record st { media = write_back st.media c } else st))
]

-- `_cachSector`; the contents stay if the driver refuses the disk.
pub cach_sector : ℕ → ℕ → ℕ → Cache → Cache
cach_sector index disk sector st =
    let old = get_or st.table index blank in
    let loaded : List ℕ = elim (ata_read st.media disk sector_size sector 0) [
      | none ↦ old.contents
      | some b ↦ b
    ] in
    record st {
      table = set st.table index (record {
        disk = disk;
        sector = sector;
        contents = loaded;
        dirty = false;
        access_count = some 1;
      });
    }

-- The entry of a sector, which is loaded if it is not found.
pub locate : Cache → ℕ → ℕ → ℕ × Cache
unfolding cache_index next_free_index cach_sector to_short
locate st disk sector = elim (cache_index st.table disk (to_short sector)) [
  | some i ↦ (i, st)
  | none ↦ (let (i, st') = next_free_index st in (i, cach_sector i disk sector st'))
]

abbrev pub count_access : CachedSector → CachedSector
count_access c = record c {
  access_count = elim c.access_count [ none ↦ some 0 | some n ↦ some (n + 1) ];
}

abbrev pub update : (CachedSector → CachedSector) → ℕ → Cache → Cache
update f i st = record st { table = set st.table i (f (get_or st.table i blank)) }

-- The body of `diskCache_read` behind `ata_normalize`; `again` is the recursive call.
pub read_body : (Cache → ℕ → ℕ → ℕ → ℕ → List ℕ × Cache) → Cache → ℕ → ℕ → ℕ × ℕ → List ℕ × Cache
read_body again st disk bytes (s, o) =
    let (i, st') = locate st disk s in
    let c = get_or st'.table i blank in
    let size = sector_size - o in
    let beyond = again st' c.disk (bytes - size) (u16 (s + 1)) 0 in
    if leb sector_size (o + bytes)
    then (take size (drop o c.contents) ++ beyond.0, update count_access i beyond.1)
    else (take bytes (drop o c.contents), update count_access i st')

-- `diskCache_read`. Each call but the last moves at least one byte, so `bytes + 1` calls are enough.
pub read_calls : ℕ → Cache → ℕ → ℕ → ℕ → ℕ → List ℕ × Cache
read_calls zero st disk bytes sector offset = ([], st)
read_calls (suc fuel) st disk bytes sector offset =
    read_body (read_calls fuel) st disk bytes (ata_normalize sector offset)

pub disk_cache_read : Cache → ℕ → ℕ → ℕ → ℕ → List ℕ × Cache
unfolding read_calls
disk_cache_read st disk bytes sector offset = read_calls (bytes + 1) st disk bytes sector offset

abbrev pub store : ℕ → List ℕ → CachedSector → CachedSector
store o msg c = record (count_access c) { dirty = true; contents = overlay c.contents o msg }

-- The body of `diskCache_write`; `msg` is what is left of the caller's bytes.
pub write_body : (Cache → ℕ → List ℕ → ℕ → ℕ → ℕ → Cache) → Cache → ℕ → List ℕ → ℕ → ℕ × ℕ → Cache
write_body again st disk msg bytes (s, o) =
    let (i, st') = locate st disk s in
    let c = get_or st'.table i blank in
    let size = sector_size - o in
    let stored = update (store o (take size msg)) i st' in
    let beyond = again stored c.disk (drop size msg) (bytes - size) (u16 (s + 1)) 0 in
    if leb sector_size (o + bytes) then beyond else update (store o (take bytes msg)) i st'

pub write_calls : ℕ → Cache → ℕ → List ℕ → ℕ → ℕ → ℕ → Cache
write_calls zero st disk msg bytes sector offset = st
write_calls (suc fuel) st disk msg bytes sector offset =
    write_body (write_calls fuel) st disk msg bytes (ata_normalize sector offset)

pub disk_cache_write : Cache → ℕ → List ℕ → ℕ → ℕ → ℕ → Cache
unfolding write_calls
disk_cache_write st disk msg bytes sector offset =
    write_calls (bytes + 1) st disk msg bytes sector offset

-- `cache_flush`, over the entries from the first on.
pub flush_entries : Media → List CachedSector → Media × List CachedSector
flush_entries m [] = (m, [])
flush_entries m (c ∷ cs) =
    let m' = if c.dirty then write_back m c else m in
    let (m'', rest) = flush_entries m' cs in (m'', record c { dirty = false } ∷ rest)

pub cache_flush : Cache → Cache
unfolding flush_entries
cache_flush st = let (m, cs) = flush_entries st.media st.table in record { table = cs; media = m }

forget_entries : List CachedSector → List CachedSector
forget_entries [] = []
forget_entries (c ∷ cs) = record c { access_count = none } ∷ forget_entries cs

-- `diskCache_init` marks every entry as never used.
pub disk_cache_init : Cache → Cache
unfolding forget_entries
disk_cache_init st = record st { table = forget_entries st.table }
