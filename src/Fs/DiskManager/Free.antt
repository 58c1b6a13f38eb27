-- ===== src/Fs/DiskManager/Free.antt =====
-- `_freeMemory` frees the blocks of a chain, and undoes `_reserveMemoryBitMap`.
use so2c2011tp.Prelude.{
  ℕ, zero, suc, ◌*◌, ◌/◌, ◌<◌, ◌≡◌, refl, ap, ◌∙◌, some, List, [], ◌∷◌, arith, length, ◌==◌,
  if◌then◌else◌,
}
use so2c2011tp.Driver.Ata.{ata0}
use so2c2011tp.Fs.Strategy.{Machine, Manager, fetch}
use so2c2011tp.Fs.Strategy.Laws.{IsDrive, Slice}
use so2c2011tp.Fs.Strategy.Calls.{Quiet, Quiet-trans, Quiet-Slice, fetch-Quiet}
use so2c2011tp.Fs.Structs.{DiskPage, page_at, page_bytes}
use so2c2011tp.Fs.Structs.RoundTrip.{PageFits, page_at-page_bytes_alone}
use so2c2011tp.Fs.DiskManager.Bitmap.{entry, unmark}
use so2c2011tp.Fs.DiskManager.Bitmap.Laws.{entry-unmark, unmark-AreBytes, length-unmark}
use so2c2011tp.Fs.DiskManager.Blocks.{free_loop}
use so2c2011tp.Fs.DiskManager.Chains.{place, Chain, Chain-kept, mem}
use so2c2011tp.Fs.DiskManager.Reserve.{row_of}
use so2c2011tp.Fs.DiskManager.ReserveLoop.{IsBitmap}

-- A page that points to block `k`.
pub record PointsTo (k : ℕ) (p : DiskPage) : Type 0 where
  pub disk : p.disk ≡ ata0
  pub next_sector : p.next_sector ≡ 11
  pub next_offset : p.next_offset ≡ k * 256

module _ {S : Type 0} (mc : Machine S) (dr : IsDrive mc.strategy) where
  -- The entries `ks` of the bitmap have been freed, and no disk has changed.
  pub record Unmarked (st : Manager S) (block ks block' : List ℕ) (st' : Manager S) : Type 0 where
    pub quiet : Quiet mc dr st st'
    pub bitmap : IsBitmap block'
    pub entries : (j : ℕ) → entry block' j ≡ (if mem j ks then 0 else entry block j)

  -- A page of the chain as it is read.
  pub page_read :
      (old : List ℕ) (disk sector offset k : ℕ) (p : DiskPage) (st : Manager S)
      → dr.IsGood st.drive
      → disk ≡ ata0
      → sector ≡ 11
      → offset ≡ k * 256
      → k < 4096
      → PageFits p
      → Slice (row_of mc dr st) (place k) 28 (page_bytes p)
      → let (b, st') = fetch mc old disk 28 sector offset st in
        (page_at b 0 ≡ p) × Quiet mc dr st st'
  page_read old disk sector offset k p st g ed es eo h fits s =
      let (e, q) =
        fetch-Quiet mc dr old ata0 28 11 (k * 256) st (page_bytes p) g refl (omega arith)
          (omega arith) s in
      rw (ed, es, eo) (ap (λ b. page_at b 0) e ∙ page_at-page_bytes_alone p fits, q)

  pub Quiet-Chain :
      (st st' : Manager S) (k : ℕ) (ks : List ℕ)
      → Quiet mc dr st st'
      → Chain (row_of mc dr st) k ks
      → Chain (row_of mc dr st') k ks
  Quiet-Chain st st' k ks q =
      Chain-kept _ _ k ks
        (λ j piece h s. Quiet-Slice mc dr st st' ata0 (place j) 28 piece q (omega arith) s)

  unmarked_one :
      (block : List ℕ) (k : ℕ)
      → IsBitmap block
      → k < 4096
      → IsBitmap (unmark block k)
        × ((j : ℕ) → entry (unmark block k) j ≡ (if j == k then 0 else entry block j))
  unmarked_one block k b h = (
    record { bytes = unmark-AreBytes block k b.bytes; full = length-unmark block k ∙ b.full },
    λ j. entry-unmark block k b.bytes j (omega (arith, b.full)),
  )

  -- What the loop does at one page `p`, before the rounds that follow.
  free_round :
      (fuel : ℕ) (curr p : DiskPage) (k : ℕ) (block : List ℕ) (st : Manager S)
      → dr.IsGood st.drive
      → PointsTo k curr
      → k < 4096
      → PageFits p
      → Slice (row_of mc dr st) (place k) 28 (page_bytes p)
      → (st1 : Manager S) × (free_loop mc (suc fuel) curr block st ≡ (
          if p.has_next_page == 0
          then some (unmark block k, st1)
          else free_loop mc fuel p (unmark block k) st1))
        × Quiet mc dr st st1
  unfolding free_loop
  free_round fuel curr p k block st g t h fits s =
      let (e, q) =
        page_read (page_bytes curr) curr.disk curr.next_sector curr.next_offset k p st g t.disk
          t.next_sector t.next_offset h fits s in
      let st1 = (fetch mc (page_bytes curr) curr.disk 28 curr.next_sector curr.next_offset st).1 in
      let number : curr.next_offset / 256 ≡ k = omega (arith, t.next_offset) in
      (
        st1,
        ap
              (λ n.
                if n.has_next_page == 0
                then some (unmark block (curr.next_offset / 256), st1)
                else free_loop mc fuel n (unmark block (curr.next_offset / 256)) st1)
              e
            ∙ ap
                (λ m.
                  if p.has_next_page == 0
                  then some (unmark block m, st1)
                  else free_loop mc fuel p (unmark block m) st1)
                number,
        q,
      )

  pub free_loop-Unmarked :
      (fuel : ℕ) (curr : DiskPage) (k : ℕ) (ks block : List ℕ) (st : Manager S)
      → dr.IsGood st.drive
      → PointsTo k curr
      → IsBitmap block
      → length ks < fuel
      → Chain (row_of mc dr st) k ks
      → (block' : List ℕ) × (st' : Manager S) × (free_loop mc fuel curr block st
          ≡ some (block', st'))
        × Unmarked st block (k ∷ ks) block' st'
  free_loop-Unmarked zero curr k ks block st g t b h c = absurd (omega arith)
  free_loop-Unmarked (suc fuel) curr k [] block st g t b h (p, lt, (new, no_next), s) =
      let (st1, e, q) = free_round fuel curr p k block st g t lt new.fits s in
      let (b', marks) = unmarked_one block k b lt in
      (
        unmark block k,
        st1,
        e ∙ ground arith,
        record { quiet = q; bitmap = b'; entries = λ j. marks j ∙ ground arith },
      )
  free_loop-Unmarked (suc fuel) curr k (k' ∷ ks) block st g t b h
        ((p, lt, (new, next, sector, offset), s), rest) =
      let (st1, e, q) = free_round fuel curr p k block st g t lt new.fits s in
      let (b', marks) = unmarked_one block k b lt in
      let (block'', st'', e'', u) =
        free_loop-Unmarked fuel p k' ks (unmark block k) st1 q.good
          (record { disk = new.disk; next_sector = sector; next_offset = offset }) b' (omega arith)
          (Quiet-Chain st st1 k' ks q rest) in
      (
        block'',
        st'',
        e ∙ ground arith ∙ e'',
        record {
          quiet = Quiet-trans mc dr st st1 st'' q u.quiet;
          bitmap = u.bitmap;
          entries = λ j. u.entries j ∙ ground (arith, marks j);
        },
      )
