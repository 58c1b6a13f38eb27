-- ===== src/Fs/DiskCache/Flush.antt =====
-- `cache_flush`: the disks come to hold what the client sees.
use so2c2011tp.Prelude.{
  ℕ, suc, ◌<◌, ◌^◌, ◌≡◌, inl, inr, ap, refl, sym, ◌∙◌, true, false, none, some, List, [], ◌∷◌,
  arith, Bool-cases, if◌then◌else◌, length,
}
use so2c2011tp.Driver.Ata.{Media}
use so2c2011tp.Driver.Ata.Flat.{IsFormatted, disk_bytes}
use so2c2011tp.Fs.DiskCache.{Cache, CachedSector, is_used, write_back, flush_entries, cache_flush}
use so2c2011tp.Fs.DiskCache.Table.{lookup, Distinct, All, is_at, is_at_same, absent-All, map-All}
use so2c2011tp.Fs.DiskCache.View.{view, IsSound, IsCoherent, SameView, write_back_lem}

abbrev found_or_disk : Media → List CachedSector → ℕ → ℕ → List ℕ
found_or_disk m cs disk s = elim (lookup cs disk s) [
  | none ↦ disk_bytes m disk s
  | some c ↦ c.contents
]

abbrev cleaned : CachedSector → CachedSector
cleaned c = record c { dirty = false }

-- What the loop leaves, from the entries `cs` on.
record Flushed (m : Media) (cs : List CachedSector) (out : Media × List CachedSector) : Type 0 where
  formatted : IsFormatted out.0
  sectors : (disk s : ℕ) → s < 2 ^ 16 → disk_bytes out.0 disk s ≡ found_or_disk m cs disk s
  found :
      (disk s : ℕ)
      → lookup out.1 disk s ≡ (elim (lookup cs disk s) [ none ↦ none | some c ↦ some (cleaned c) ])
  distinct : Distinct out.1
  entries : length out.1 ≡ length cs
  sound : All (IsSound out.0) out.1

flush_head :
    (m : Media) (c : CachedSector)
    → IsFormatted m
    → IsSound m c
    → let m' = if c.dirty then write_back m c else m in
      IsFormatted m'
      × ((disk s : ℕ)
          → s < 2 ^ 16
          → disk_bytes m' disk s ≡ (if is_at c disk s then c.contents else disk_bytes m disk s))
flush_head m c f sound = elim (Bool-cases c.dirty) [
  | inr clean ↦ simp clean (
    f,
    λ disk s p. elim (Bool-cases (is_at c disk s)) [
      | inl hit ↦ ground (arith, sound.clean)
      | inr miss ↦ ground arith
    ],
  )
  | inl dirty ↦ elim (Bool-cases (is_used c)) [
    | inr unused ↦ cc (sound.idle unused)
    | inl used ↦
        let place = sound.on_disk used in
        let r = write_back_lem m c f sound.full sound.bytes place.0 (omega arith) in
        simp dirty (r.formatted, λ disk s p. r.sectors disk s p ∙ ground arith)
  ]
]

-- An entry that does not hold the sector written by another is as sound as before.
kept-IsSound :
    (m m' : Media) (c x : CachedSector)
    → ((disk s : ℕ)
        → s < 2 ^ 16
        → disk_bytes m' disk s ≡ (if is_at c disk s then c.contents else disk_bytes m disk s))
    → (is_used x ≡ true → is_at c x.disk x.sector ≡ false)
    → IsSound m x
    → IsSound m' x
kept-IsSound m m' c x new apart sound = record {
  full = sound.full;
  bytes = sound.bytes;
  on_disk = sound.on_disk;
  clean = λ u p.
      let place = sound.on_disk u in
      sound.clean u p ∙ ground (arith, new x.disk x.sector (omega arith), apart u);
  idle = sound.idle;
}

flush_entries-Flushed :
    (m : Media) (cs : List CachedSector)
    → IsFormatted m
    → Distinct cs
    → All (IsSound m) cs
    → Flushed m cs (flush_entries m cs)
unfolding flush_entries
flush_entries-Flushed m [] f d a = record {
  formatted = f;
  sectors = λ disk s p. refl;
  found = λ disk s. refl;
  distinct = tt;
  entries = refl;
  sound = tt;
}
flush_entries-Flushed m (c ∷ cs) f d a =
    add_head (flush_entries-Flushed m' cs head.0 d.1 tail_sound)
  where
    m' : Media
    m' = if c.dirty then write_back m c else m

    head :
        IsFormatted m'
        × ((disk s : ℕ)
            → s < 2 ^ 16
            → disk_bytes m' disk s ≡ (if is_at c disk s then c.contents else disk_bytes m disk s))
    head = flush_head m c f a.0

    tail_sound : All (IsSound m') cs
    tail_sound = elim (Bool-cases (is_used c)) [
      | inl used ↦
          absent-All (IsSound m) (IsSound m') cs c.disk c.sector a.1 (d.0 used)
            (λ x apart. kept-IsSound m m' c x head.1 (λ u. ground (arith, apart u)))
      | inr unused ↦
          map-All (IsSound m) (IsSound m') cs a.1
            (λ x. kept-IsSound m m' c x head.1 (λ u. ground arith))
    ]

    merge :
        (disk s : ℕ)
        → s < 2 ^ 16
        → disk_bytes (flush_entries m' cs).0 disk s ≡ found_or_disk m' cs disk s
        → disk_bytes (flush_entries m' cs).0 disk s ≡ found_or_disk m (c ∷ cs) disk s
    merge disk s p e = elim (Bool-cases (is_at c disk s)) [
      | inl hit ↦
          let (u, same_disk, same_sector) = is_at_same c disk s hit in
          let gone : lookup cs disk s ≡ none = rw (← same_disk, ← same_sector) (d.0 u) in
          e ∙ ground (arith, head.1 disk s)
      | inr miss ↦ e ∙ ground (arith, head.1 disk s)
    ]

    add_head :
        Flushed m' cs (flush_entries m' cs)
        → Flushed m (c ∷ cs) ((flush_entries m' cs).0, cleaned c ∷ (flush_entries m' cs).1)
    add_head r = record {
      formatted = r.formatted;
      sectors = λ disk s p. merge disk s p (r.sectors disk s p);
      found = λ disk s. ground (arith, r.found disk s);
      distinct = (λ u. r.found c.disk c.sector ∙ ground (arith, d.0 u), r.distinct);
      entries = ap suc r.entries;
      sound = (
        record {
          full = a.0.full;
          bytes = a.0.bytes;
          on_disk = a.0.on_disk;
          clean = λ u _.
              let place = a.0.on_disk u in
              sym (
                merge c.disk c.sector (omega arith) (r.sectors c.disk c.sector (omega arith))
                ∙ ground arith);
          idle = λ _. refl;
        },
        r.sound,
      );
    }

-- After `cache_flush` the disks hold every byte that the client sees, below sector 2 ^ 15; the client
-- sees no change, and the state is coherent.
pub cache_flush_lem :
    (st : Cache)
    → IsCoherent st
    → let st' = cache_flush st in
      ((disk s : ℕ) → s < 2 ^ 15 → disk_bytes st'.media disk s ≡ view st disk s)
      × SameView st st'
      × IsCoherent st'
unfolding cache_flush
cache_flush_lem st co =
    let r = flush_entries-Flushed st.media st.table co.formatted co.distinct co.sound in
    (
      λ disk s p. r.sectors disk s (omega arith),
      λ disk s p. ground (arith, r.found disk s, r.sectors disk s (omega arith)),
      record {
        formatted = r.formatted;
        entries = r.entries ∙ co.entries;
        distinct = r.distinct;
        sound = r.sound;
      },
    )
