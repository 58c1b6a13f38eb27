-- ===== src/Fs/DiskCache/Locate.antt =====
-- `_cachSector` and the first lines of the two transfers: a sector comes into the
-- table, and the client sees no change.
use so2c2011tp.Prelude.{
  ℕ, ◌<◌, ◌^◌, ◌≡◌, inl, inr, refl, ◌∙◌, true, false, none, some, arith, Bool-cases, set, get_or,
  length, length-set, get_or-set_self, get_or-set,
}
use so2c2011tp.Driver.Ata.{Media, is_disk}
use so2c2011tp.Driver.Ata.Flat.{IsFormatted, disk_bytes}
use so2c2011tp.Driver.Ata.Words.{sector_bytes-AreBytes}
use so2c2011tp.Fs.DiskCache.{
  Cache, CachedSector, blank, is_used, next_free_index, cach_sector, cache_index, to_short, locate,
}
use so2c2011tp.Fs.DiskCache.Table.{
  lookup, All, is_at, cache_index_lem, lookup-Apart, Distinct-Apart, lookup-set, Distinct-set,
  set-All, lookup_of_at,
}
use so2c2011tp.Fs.DiskCache.View.{IsSound, IsCoherent, SameView, length-disk_bytes, ata_read_sector}
use so2c2011tp.Fs.DiskCache.Evict.{Evicted, next_free_index-Evicted}

-- An entry in use stays in use.
abbrev pub KeepsUsed : Cache → Cache → Type 0
KeepsUsed st st' =
    (j : ℕ) → is_used (get_or st.table j blank) ≡ true → is_used (get_or st'.table j blank) ≡ true

-- After the first lines of a transfer: entry `i` holds the sector, and nothing else has changed
-- for a client.
pub record Located (st : Cache) (disk s i : ℕ) (st' : Cache) : Type 0 where
  pub within : i < length st'.table
  pub coherent : IsCoherent st'
  pub same : SameView st st'
  pub holds : is_at (get_or st'.table i blank) disk s ≡ true
  pub kept : KeepsUsed st st'

-- The entry that `_cachSector` makes.
abbrev pub loaded : Media → ℕ → ℕ → CachedSector
loaded m disk s = record {
  disk = disk;
  sector = s;
  contents = disk_bytes m disk s;
  dirty = false;
  access_count = some 1;
}

cach_sector_lem :
    (st : Cache) (i disk s : ℕ)
    → IsFormatted st.media
    → s < 2 ^ 16
    → is_disk disk ≡ true
    → cach_sector i disk s st ≡ record st { table = set st.table i (loaded st.media disk s) }
unfolding cach_sector
cach_sector_lem st i disk s f h d = rw (ata_read_sector st.media disk s f h d)

loaded-IsSound :
    (m : Media) (disk s : ℕ)
    → IsFormatted m
    → is_disk disk ≡ true
    → s < 2 ^ 15
    → IsSound m (loaded m disk s)
loaded-IsSound m disk s f d h = record {
  full = length-disk_bytes m disk s f;
  bytes = sector_bytes-AreBytes (m disk s);
  on_disk = λ _. (d, h);
  clean = λ _ _. refl;
  idle = λ u. cc;
}

-- An entry apart from the chosen one is as sound on the disks as they are now.
kept-IsSound :
    (st st' : Cache) (i : ℕ) (c : CachedSector)
    → Evicted st i st'
    → (is_used c ≡ true → is_at (get_or st.table i blank) c.disk c.sector ≡ false)
    → IsSound st.media c
    → IsSound st'.media c
kept-IsSound st st' i c e apart sound = record {
  full = sound.full;
  bytes = sound.bytes;
  on_disk = sound.on_disk;
  clean = λ u p.
      let place = sound.on_disk u in
      sound.clean u p ∙ ground (arith, e.sectors c.disk c.sector (omega arith), apart u);
  idle = sound.idle;
}

set-view :
    (st st' : Cache) (i disk s : ℕ)
    → IsCoherent st
    → Evicted st i st'
    → s < 2 ^ 15
    → lookup st.table disk s ≡ none
    → SameView st (record st' { table = set st.table i (loaded st'.media disk s) })
set-view st st' i disk s c e h absent disk' s' h' =
    let x = get_or st.table i blank in
    let new = loaded st'.media disk s in
    let put =
      lookup-set st.table i new disk' s' c.distinct e.within refl
        (lookup-Apart st.table i disk s absent) in
    ground (
      arith,
      put,
      e.sectors disk' s' (omega arith),
      e.sectors disk s (omega arith),
      lookup_of_at st.table i disk' s' c.distinct e.within,
      lookup_of_at st.table i disk s c.distinct e.within,
    )

set-IsSound :
    (st st' : Cache) (i disk s : ℕ)
    → IsCoherent st
    → Evicted st i st'
    → is_disk disk ≡ true
    → s < 2 ^ 15
    → lookup st.table disk s ≡ none
    → All (IsSound st'.media) (set st.table i (loaded st'.media disk s))
set-IsSound st st' i disk s c e d h absent =
    let x = get_or st.table i blank in
    let new = loaded-IsSound st'.media disk s e.formatted d h in
    elim (Bool-cases (is_used x)) [
      | inl used ↦
          set-All (IsSound st.media) (IsSound st'.media) st.table i _ x.disk x.sector c.sound
            (Distinct-Apart st.table i x.disk x.sector c.distinct e.within (ground arith))
            c.distinct new (λ y apart. kept-IsSound st st' i y e (λ u. ground (arith, apart u)))
      | inr free ↦
          set-All (IsSound st.media) (IsSound st'.media) st.table i _ disk s c.sound
            (lookup-Apart st.table i disk s absent) c.distinct new
            (λ y apart. kept-IsSound st st' i y e (λ u. ground arith))
    ]

load-Located :
    (st st' : Cache) (i disk s : ℕ)
    → IsCoherent st
    → Evicted st i st'
    → is_disk disk ≡ true
    → s < 2 ^ 15
    → lookup st.table disk s ≡ none
    → Located st disk s i (record st' { table = set st.table i (loaded st'.media disk s) })
load-Located st st' i disk s c e d h absent =
    let new = loaded st'.media disk s in
    record {
      within = omega (arith, e.within, length-set st.table i new);
      coherent = record {
        formatted = e.formatted;
        entries = length-set st.table i new ∙ c.entries;
        distinct =
            Distinct-set st.table i new c.distinct e.within refl
              (lookup-Apart st.table i disk s absent);
        sound = set-IsSound st st' i disk s c e d h absent;
      };
      same = set-view st st' i disk s c e h absent;
      holds = rw (get_or-set_self st.table i new blank e.within) (ground arith);
      kept = λ j u. ground (arith, get_or-set st.table i j new blank, u);
    }

locate-found :
    (st : Cache) (disk s i : ℕ)
    → cache_index st.table disk (to_short s) ≡ some i
    → locate st disk s ≡ (i, st)
unfolding locate
locate-found st disk s i e = rw (e, locate)

locate-missed :
    (st : Cache) (disk s : ℕ)
    → cache_index st.table disk (to_short s) ≡ none
    → locate st disk s ≡ (let (i, st') = next_free_index st in (i, cach_sector i disk s st'))
unfolding locate
locate-missed st disk s e = rw (e, locate)

-- Whichever entry is found, freed or replaced, a sector of a disk is then in the table.
pub locate-Located :
    (st : Cache) (disk s : ℕ)
    → IsCoherent st
    → is_disk disk ≡ true
    → s < 2 ^ 15
    → let (i, st') = locate st disk s in Located st disk s i st'
locate-Located st disk s c d h = elim (cache_index_lem st.table disk s h) [
  | inr (i, found, within, at, holds) ↦ rw (locate-found st disk s i found) (record {
    within = within;
    coherent = c;
    same = λ disk' s' p. refl;
    holds = holds;
    kept = λ j u. u;
  })
  | inl (missed, absent) ↦
      let (i, st') = next_free_index st in
      let e = next_free_index-Evicted st c in
      rw (locate-missed st disk s missed) (
        rw (cach_sector_lem st' i disk s e.formatted (omega arith) d, e.table)
          (load-Located st st' i disk s c e d h absent))
]
