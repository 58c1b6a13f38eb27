-- ===== src/Fs/DiskCache/Evict.antt =====
-- `_nextFreeIndex`: the entry that it frees, written back before it is replaced.
use so2c2011tp.Prelude.{
  ℕ, ◌<◌, ◌^◌, ◌≡◌, inl, inr, refl, ◌∙◌, true, false, arith, Bool-cases, if◌then◌else◌, get_or,
  length,
}
use so2c2011tp.Driver.Ata.Flat.{IsFormatted, disk_bytes}
use so2c2011tp.Fs.DiskCache.{
  Cache, Choice, unused, replace, blank, is_used, write_back, choose_entry, next_free_index,
}
use so2c2011tp.Fs.DiskCache.Table.{is_at, get_or-All, Chosen, choose_entry_lem}
use so2c2011tp.Fs.DiskCache.View.{IsSound, IsCoherent, write_back_lem}

-- After `_nextFreeIndex`: the disks hold what the chosen entry `x` held, if it was in use.
pub record Evicted (st : Cache) (i : ℕ) (st' : Cache) : Type 0 where
  pub within : i < length st.table
  pub table : st'.table ≡ st.table
  pub formatted : IsFormatted st'.media
  pub sectors :
      (disk s : ℕ)
      → s < 2 ^ 16
      → disk_bytes st'.media disk s ≡ (
          if is_at (get_or st.table i blank) disk s
          then (get_or st.table i blank).contents
          else disk_bytes st.media disk s)

Evicted-same :
    (st : Cache) (i : ℕ)
    → IsCoherent st
    → i < length st.table
    → (get_or st.table i blank).dirty ≡ false
    → Evicted st i st
Evicted-same st i c h clean =
    let x = get_or st.table i blank in
    let sound = get_or-All (IsSound st.media) st.table i c.sound h in
    record {
      within = h;
      table = refl;
      formatted = c.formatted;
      sectors = λ disk s p. elim (Bool-cases (is_at x disk s)) [
        | inl hit ↦ ground (arith, sound.clean)
        | inr miss ↦ ground arith
      ];
    }

Evicted-written :
    (st : Cache) (i : ℕ)
    → IsCoherent st
    → i < length st.table
    → is_used (get_or st.table i blank) ≡ true
    → Evicted st i (record st { media = write_back st.media (get_or st.table i blank) })
Evicted-written st i c h used =
    let x = get_or st.table i blank in
    let sound = get_or-All (IsSound st.media) st.table i c.sound h in
    let place = sound.on_disk used in
    let done = write_back_lem st.media x c.formatted sound.full sound.bytes place.0 (omega arith) in
    record {
      within = h;
      table = refl;
      formatted = done.formatted;
      sectors = λ disk s p. done.sectors disk s p ∙ ground arith;
    }

pub next_free_index-Evicted :
    (st : Cache) → IsCoherent st → let (i, st') = next_free_index st in Evicted st i st'
unfolding next_free_index
next_free_index-Evicted st c =
    choice (choose_entry st.table st.table 0 0)
      (choose_entry_lem st.table (omega (arith, c.entries)))
  where
    choice :
        (ch : Choice)
        → Chosen st.table ch
        → let (i, st') = elim ch as (λ _. ℕ × Cache) [
          | unused i ↦ (i, st)
          | replace i ↦
              (let x = get_or st.table i blank in
                (i, if x.dirty then record st { media = write_back st.media x } else st))
        ] in
          Evicted st i st'
    choice (unused i) (h, free) =
        Evicted-same st i c h ((get_or-All (IsSound st.media) st.table i c.sound h).idle free)
    choice (replace i) (h, least) = elim (Bool-cases (get_or st.table i blank).dirty) [
      | inl dirty ↦ rw dirty (Evicted-written st i c h (least i h).0)
      | inr clean ↦ rw clean (Evicted-same st i c h clean)
    ]
