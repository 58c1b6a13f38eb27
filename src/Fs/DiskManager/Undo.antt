-- ===== src/Fs/DiskManager/Undo.antt =====
-- `_freeMemory` as a whole, behind `_reserveMemoryBitMap`.
use so2c2011tp.Prelude.{
  ℕ, zero, suc, ◌+◌, ◌*◌, ◌<◌, ◌≤◌, ◌≡◌, inl, inr, refl, ap, ◌∙◌, Option, none, some, List, [], ◌∷◌,
  arith, length, ◌==◌, if◌then◌else◌, true, get_or, take, length-take, Bool-cases, ==_iff,
}
use so2c2011tp.Prelude.Int.{pos}
use so2c2011tp.Driver.Ata.{ata0}
use so2c2011tp.Fs.Strategy.{Machine, Manager, fetch, put}
use so2c2011tp.Fs.Strategy.Laws.{IsDrive}
use so2c2011tp.Fs.Strategy.Calls.{
  fetch-Quiet, put-Stored, Stored-Slice, Stored, Quiet-Stored, Quiet-trans,
}
use so2c2011tp.Fs.Structs.{DiskPage, page_at}
use so2c2011tp.Fs.Structs.RoundTrip.{PageFits}
use so2c2011tp.Fs.DiskManager.Bitmap.{entry}
use so2c2011tp.Fs.DiskManager.Blocks.{free_loop, free_memory, reserve_memory}
use so2c2011tp.Fs.DiskManager.Chains.{Chain, free_entries, mem}
use so2c2011tp.Fs.DiskManager.Reserve.{row_of, first_page}
use so2c2011tp.Fs.DiskManager.ReserveLoop.{IsBitmap}
use so2c2011tp.Fs.DiskManager.Allocate.{
  HasBlockMap, HasBlockMap-IsBitmap, Allocated, reserve_memory_lem,
}
use so2c2011tp.Fs.DiskManager.Free.{PointsTo, Quiet-Chain, free_loop-Unmarked}

module _ {S : Type 0} (mc : Machine S) (dr : IsDrive mc.strategy) where
  -- The blocks `ks` are free again: the bitmap is the one thing that has changed.
  pub record Freed (st : Manager S) (block ks : List ℕ) (st' : Manager S) : Type 0 where
    pub map_after : List ℕ
    pub bitmap : HasBlockMap mc dr st' map_after
    pub is_bitmap : IsBitmap map_after
    pub entries : (j : ℕ) → entry map_after j ≡ (if mem j ks then 0 else entry block j)
    pub stored : Stored mc dr st ata0 (10 * 512 + 0) map_after st'

  -- `_freeMemory` of a page that points to a chain of blocks, with more fuel than blocks that follow
  -- the first, frees these blocks in the bitmap, and writes nothing else.
  pub free_memory_lem :
      (fuel : ℕ) (page : DiskPage) (k : ℕ) (ks block : List ℕ) (st : Manager S)
      → dr.IsGood st.drive
      → HasBlockMap mc dr st block
      → PointsTo k page
      → length ks < fuel
      → Chain (row_of mc dr st) k ks
      → (st' : Manager S) × (free_memory mc fuel page st ≡ some st') × Freed st block (k ∷ ks) st'
  unfolding free_memory
  free_memory_lem fuel page k ks block st g s t h c =
      let (e, q) =
        fetch-Quiet mc dr (mc.stack 512) ata0 512 10 0 st block g refl (omega arith) (omega arith)
          s in
      let st1 = (fetch mc (mc.stack 512) ata0 512 10 0 st).1 in
      let curr = record (page_at (mc.stack 28) 0) {
        disk = page.disk;
        next_sector = page.next_sector;
        next_offset = page.next_offset;
      } in
      let (block', st2, e2, u) =
        free_loop-Unmarked mc dr fuel curr k ks block st1 q.good
          (record { disk = t.disk; next_sector = t.next_sector; next_offset = t.next_offset })
          (HasBlockMap-IsBitmap mc dr st block g s) h (Quiet-Chain mc dr st st1 k ks q c) in
      let q2 = Quiet-trans mc dr st st1 st2 q u.quiet in
      let w =
        put-Stored mc dr ata0 block' 10 0 st2 q2.good refl u.bitmap.bytes (omega arith)
          (omega (arith, u.bitmap.full)) in
      (
        put mc ata0 block' 10 0 st2,
        ap
              (λ b. elim (free_loop mc fuel curr b st1) [
                | none ↦ none
                | some r ↦ some (put mc ata0 r.0 10 0 r.1)
              ])
              e
            ∙ ap
                (λ o.
                  let o' : Option (Manager S) = elim o [
                    | none ↦ none
                    | some r ↦ some (put mc ata0 r.0 10 0 r.1)
                  ] in
                  o')
                e2,
        record {
          map_after = block';
          bitmap =
              Stored-Slice mc dr st2 _ ata0 (10 * 512 + 0) 512 block' u.bitmap.full (omega arith) w;
          is_bitmap = u.bitmap;
          entries = u.entries;
          stored = Quiet-Stored mc dr st st2 _ ata0 (10 * 512 + 0) block' q2 w;
        },
      )

free_before :
    (n k todo : ℕ) (block : List ℕ) (j : ℕ)
    → mem j (take todo (free_entries n k block)) ≡ true
    → entry block j ≡ 0
unfolding free_entries
free_before zero k zero block j h = cc
free_before zero k (suc todo) block j h = cc
free_before (suc n) k zero block j h = cc
free_before (suc n) k (suc todo) block j h = elim (Bool-cases (entry block k == 0)) [
  | inr taken ↦ free_before n (k + 1) (suc todo) block j (rw (taken) at h)
  | inl free ↦ elim (Bool-cases (j == k)) [
    | inl here ↦ rw ((==_iff j k).0 here) (ground arith)
    | inr later ↦ (let h' = rw free at h in free_before n (k + 1) todo block j (ground arith))
  ]
]

module _ {S : Type 0} (mc : Machine S) (dr : IsDrive mc.strategy) where
  first_page-PointsTo : (blocks k : ℕ) → PointsTo k (first_page blocks k)
  first_page-PointsTo blocks k = record { disk = refl; next_sector = refl; next_offset = refl }

  undo :
      (fuel blocks : ℕ) (block ks : List ℕ) (st st1 : Manager S)
      → Allocated mc dr st block ks st1
      → 1 ≤ length ks
      → length ks ≤ fuel
      → ((j : ℕ) → mem j ks ≡ true → entry block j ≡ 0)
      → (st2 : Manager S) × (block2 : List ℕ) × (free_memory mc fuel
            (first_page blocks (get_or ks 0 0))
            st1
          ≡ some st2)
        × HasBlockMap mc dr st2 block2
        × ((j : ℕ) → entry block2 j ≡ entry block j)
  undo fuel blocks block [] st st1 a h f free = absurd (omega arith)
  undo fuel blocks block (k ∷ ks) st st1 a h f free =
      let (st2, e, d) =
        free_memory_lem mc dr fuel (first_page blocks k) k ks a.map_after st1 a.good a.bitmap
          (first_page-PointsTo blocks k) (omega arith) a.chain in
      (st2, d.map_after, e, d.bitmap, λ j. d.entries j ∙ ground (arith, a.entries j, free j))

  -- Blocks that were reserved and then freed leave the bitmap of blocks as it was, entry for entry:
  -- `_reserveMemoryBitMap` finds the blocks that it asks for, and `_freeMemory` has more fuel than
  -- there are blocks.
  pub free_memory-reserve_memory :
      (fuel : ℕ) (page : DiskPage) (blocks : ℕ) (block : List ℕ) (st : Manager S)
      → dr.IsGood st.drive
      → PageFits (page_at (mc.stack 28) 0)
      → HasBlockMap mc dr st block
      → 1 ≤ blocks
      → blocks ≤ length (free_entries 4096 0 block)
      → blocks ≤ fuel
      → (page' : DiskPage) × (st1 st2 : Manager S) × (block2 : List ℕ) × (reserve_memory mc fuel
            page blocks 11 0 st
          ≡ some (pos 0, page', st1))
        × (free_memory mc fuel page' st1 ≡ some st2)
        × HasBlockMap mc dr st2 block2
        × ((j : ℕ) → entry block2 j ≡ entry block j)
  free_memory-reserve_memory fuel page blocks block st g fits s some_blocks enough fueled =
      let (st1, reserved, a) =
        reserve_memory_lem mc dr fuel page blocks block st g fits s some_blocks enough in
      let ks = take blocks (free_entries 4096 0 block) in
      let count : length ks ≡ blocks =
        omega (arith, length-take blocks (free_entries 4096 0 block)) in
      let (st2, block2, freed, bitmap, same) =
        undo fuel blocks block ks st st1 a (omega arith) (omega arith)
          (free_before 4096 0 blocks block) in
      (first_page blocks (get_or ks 0 0), st1, st2, block2, reserved, freed, bitmap, same)
