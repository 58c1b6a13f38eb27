-- ===== src/Fs/DiskCache/Update.antt =====
-- A change of one entry in use: what a client sees of it.
use so2c2011tp.Prelude.{
  ℕ, ◌<◌, ◌≡◌, subst, refl, sym, ◌∙◌, true, ◌&&◌, List, arith, ◌==◌, if◌then◌else◌, set, get_or,
  length, length-set, get_or-set, AreBytes, overlay, length-overlay, overlay-AreBytes,
}
use so2c2011tp.Fs.DiskCache.{Cache, CachedSector, blank, is_used, count_access, store, update}
use so2c2011tp.Fs.DiskCache.Table.{
  Apart, is_at, Distinct-Apart, lookup-set, Distinct-set, get_or-All, set-All, lookup_of_at,
}
use so2c2011tp.Fs.DiskCache.View.{view, IsSound, IsCoherent, SameView}
use so2c2011tp.Fs.DiskCache.Locate.{KeepsUsed}

-- What is kept and what is changed when entry `i`, which holds a sector, gets new contents.
pub record Updated (st : Cache) (disk s : ℕ) (b : List ℕ) (st' : Cache) : Type 0 where
  pub coherent : IsCoherent st'
  pub kept : KeepsUsed st st'
  pub views :
      (disk' s' : ℕ)
      → view st' disk' s' ≡ (if (s' == s) && (disk' == disk) then b else view st disk' s')

set-Updated :
    (st : Cache) (i disk s : ℕ) (c : CachedSector)
    → IsCoherent st
    → i < length st.table
    → is_at (get_or st.table i blank) disk s ≡ true
    → (c.disk ≡ disk) × (c.sector ≡ s)
    → is_used c ≡ true
    → IsSound st.media c
    → Updated st disk s c.contents (record st { table = set st.table i c })
set-Updated st i disk s c co h at key used sound =
    let apart = Distinct-Apart st.table i disk s co.distinct h at in
    let apart' : Apart st.table i c.disk c.sector = rw (key.0, key.1) apart in
    record {
      coherent = record {
        formatted = co.formatted;
        entries = length-set st.table i c ∙ co.entries;
        distinct = Distinct-set st.table i c co.distinct h used apart';
        sound =
            set-All (IsSound st.media) (IsSound st.media) st.table i c disk s co.sound apart
              co.distinct sound (λ x _ p. p);
      };
      kept = λ j u. ground (arith, get_or-set st.table i j c blank, u);
      views = λ disk' s'. ground (
        arith,
        lookup-set st.table i c disk' s' co.distinct h used apart',
        lookup_of_at st.table i disk' s' co.distinct h,
      );
    }

-- The entry at which a sector is found has the contents that a client sees.
pub view_of_at :
    (st : Cache) (i disk s : ℕ)
    → IsCoherent st
    → i < length st.table
    → is_at (get_or st.table i blank) disk s ≡ true
    → view st disk s ≡ (get_or st.table i blank).contents
view_of_at st i disk s co h at = ground (arith, lookup_of_at st.table i disk s co.distinct h at)

pub store-Updated :
    (st : Cache) (i disk s o : ℕ) (msg : List ℕ)
    → IsCoherent st
    → i < length st.table
    → is_at (get_or st.table i blank) disk s ≡ true
    → AreBytes msg
    → Updated st disk s (overlay (view st disk s) o msg) (update (store o msg) i st)
store-Updated st i disk s o msg co h at b =
    let x = get_or st.table i blank in
    let sound = get_or-All (IsSound st.media) st.table i co.sound h in
    subst (λ b. Updated st disk s (overlay b o msg) (update (store o msg) i st))
      (sym (view_of_at st i disk s co h at))
      (set-Updated st i disk s (store o msg x) co h at (ground arith) (ground arith) (record {
        full = length-overlay x.contents o msg ∙ sound.full;
        bytes = overlay-AreBytes x.contents o msg sound.bytes b;
        on_disk = λ _. sound.on_disk (ground arith);
        clean = λ u p. cc;
        idle = λ u. ground arith;
      }))

-- Counting an access is invisible.
pub count_access_lem :
    (st : Cache) (i : ℕ)
    → IsCoherent st
    → i < length st.table
    → is_used (get_or st.table i blank) ≡ true
    → IsCoherent (update count_access i st)
      × KeepsUsed st (update count_access i st)
      × SameView st (update count_access i st)
count_access_lem st i co h u =
    let x = get_or st.table i blank in
    let sound = get_or-All (IsSound st.media) st.table i co.sound h in
    let at : is_at x x.disk x.sector ≡ true = ground arith in
    let done =
      set-Updated st i x.disk x.sector (count_access x) co h at (refl, refl) (ground arith)
        (record {
          full = sound.full;
          bytes = sound.bytes;
          on_disk = λ _. sound.on_disk u;
          clean = λ _. sound.clean u;
          idle = λ v. ground arith;
        }) in
    (
      done.coherent,
      done.kept,
      λ disk s p.
          ground
            (arith, done.views disk s, lookup_of_at st.table i x.disk x.sector co.distinct h at),
    )
