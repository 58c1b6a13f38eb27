-- ===== src/Fs/DiskManager/Allocate.antt =====
-- `_reserveMemoryBitMap` as a whole.
use so2c2011tp.Prelude.{
  ℕ, ◌+◌, ◌-◌, ◌*◌, ◌≤◌, ◌≡◌, inl, inr, refl, ap, subst, ◌∙◌, some, List, arith, length, ltb,
  if◌then◌else◌, false, AreBytes, get_or, take,
}
use so2c2011tp.Prelude.Int.{pos}
use so2c2011tp.Driver.Ata.{ata0}
use so2c2011tp.Fs.Strategy.{Machine, Manager, fetch, put}
use so2c2011tp.Fs.Strategy.Laws.{IsDrive, Slice}
use so2c2011tp.Fs.Strategy.Calls.{
  Quiet, fetch-Quiet, fetch-Fetched, put-Stored, Stored-Slice, Stored-apart, Quiet-Slice,
}
use so2c2011tp.Fs.Structs.{DiskPage, page_at}
use so2c2011tp.Fs.Structs.RoundTrip.{PageFits}
use so2c2011tp.Fs.DiskManager.Bitmap.{entry}
use so2c2011tp.Fs.DiskManager.Blocks.{
  Reservation, start, reserve_loop, reserve_memory, finish_reservation,
}
use so2c2011tp.Fs.DiskManager.Chains.{place, ChainOf, ChainOf-kept, free_entries, mem}
use so2c2011tp.Fs.DiskManager.Reserve.{row_of, first_page}
use so2c2011tp.Fs.DiskManager.ReserveLoop.{IsBitmap, Linked, reserve_loop-Linked}

module _ {S : Type 0} (mc : Machine S) (dr : IsDrive mc.strategy) where
  -- The bitmap of blocks on the disk.
  abbrev pub HasBlockMap : Manager S → List ℕ → Type 0
  HasBlockMap st block = Slice (row_of mc dr st) (10 * 512 + 0) 512 block

  -- The blocks `ks` have been reserved and linked; the inodes stand as before.
  pub record Allocated (st : Manager S) (block ks : List ℕ) (st' : Manager S) : Type 0 where
    pub good : dr.IsGood st'.drive
    pub errno : st'.errno ≡ st.errno
    pub chain : ChainOf (row_of mc dr st') ks
    pub map_after : List ℕ
    pub bitmap : HasBlockMap st' map_after
    pub is_bitmap : IsBitmap map_after
    pub entries : (j : ℕ) → entry map_after j ≡ (if mem j ks then 1 else entry block j)
    pub below :
        (y n : ℕ) (piece : List ℕ)
        → y + n ≤ 10 * 512
        → Slice (row_of mc dr st) y n piece
        → Slice (row_of mc dr st') y n piece

  pub HasBlockMap-IsBitmap :
      (st : Manager S) (block : List ℕ) → dr.IsGood st.drive → HasBlockMap st block → IsBitmap block
  HasBlockMap-IsBitmap st block g s =
      let f =
        fetch-Fetched mc dr (mc.stack 512) ata0 512 10 0 st g refl (omega arith) (omega arith) in
      let (e, _) =
        fetch-Quiet mc dr (mc.stack 512) ata0 512 10 0 st block g refl (omega arith) (omega arith)
          s in
      record { bytes = subst AreBytes e f.bytes; full = s.count }

  finish_reservation_lem :
      (fuel blocks : ℕ) (r : Reservation S)
      → r.reserved ≡ blocks
      → finish_reservation mc fuel blocks r ≡ some (pos 0, r.page, put mc ata0 r.block 10 0 r.mgr)
  unfolding finish_reservation
  finish_reservation_lem fuel blocks r e =
      let full : ltb r.reserved blocks ≡ false = ground arith in rw full

  Linked-Allocated :
      (st st1 : Manager S) (page : DiskPage) (block ks : List ℕ) (blocks : ℕ) (r' : Reservation S)
      → Quiet mc dr st st1
      → Linked mc dr blocks 0 ks (start mc page block st1) r'
      → Allocated st block ks (put mc ata0 r'.block 10 0 r'.mgr)
  Linked-Allocated st st1 page block ks blocks r' q l =
      let st2 = put mc ata0 r'.block 10 0 r'.mgr in
      let w =
        put-Stored mc dr ata0 r'.block 10 0 r'.mgr l.good refl l.bitmap.bytes (omega arith)
          (omega (arith, l.bitmap.full)) in
      record {
        good = w.good;
        errno = w.errno ∙ l.errno ∙ q.errno;
        chain =
            ChainOf-kept _ _ ks
              (λ j piece h s.
                Stored-apart mc dr r'.mgr st2 ata0 (10 * 512 + 0) r'.block ata0 (place j) 28 piece w
                  (omega arith) (inr (inr (omega (arith, l.bitmap.full)))) s)
              (l.chain_first refl);
        map_after = r'.block;
        bitmap =
            Stored-Slice mc dr r'.mgr st2 ata0 (10 * 512 + 0) 512 r'.block l.bitmap.full
              (omega arith) w;
        is_bitmap = l.bitmap;
        entries = l.entries;
        below = λ y n piece h s.
            Stored-apart mc dr r'.mgr st2 ata0 (10 * 512 + 0) r'.block ata0 y n piece w
              (omega arith) (inr (inl (omega arith)))
              (l.below y n piece (omega arith)
                (Quiet-Slice mc dr st st1 ata0 y n piece q (omega arith) s));
      }

  -- On a bitmap with `blocks` free entries or more, `_reserveMemoryBitMap` takes the first `blocks` of
  -- them, whatever fuel is given: it answers 0 and the page of the first one, links the blocks in
  -- their order, marks them and no other in the bitmap, and changes nothing before the bitmap.
  pub reserve_memory_lem :
      (fuel : ℕ) (page : DiskPage) (blocks : ℕ) (block : List ℕ) (st : Manager S)
      → dr.IsGood st.drive
      → PageFits (page_at (mc.stack 28) 0)
      → HasBlockMap st block
      → 1 ≤ blocks
      → blocks ≤ length (free_entries 4096 0 block)
      → let ks = take blocks (free_entries 4096 0 block) in
        (st' : Manager S) × (reserve_memory mc fuel page blocks 11 0 st
          ≡ some (pos 0, first_page blocks (get_or ks 0 0), st'))
        × Allocated st block ks st'
  unfolding reserve_memory
  reserve_memory_lem fuel page blocks block st g fits s some_blocks enough =
      let (e, q) =
        fetch-Quiet mc dr (mc.stack 512) ata0 512 10 0 st block g refl (omega arith) (omega arith)
          s in
      let st1 = (fetch mc (mc.stack 512) ata0 512 10 0 st).1 in
      let l =
        reserve_loop-Linked mc dr 4096 0 0 blocks (start mc page block st1)
          (record {
            good = q.good;
            fits = fits;
            order = omega arith;
            previous = λ m. absurd (omega arith);
          })
          (HasBlockMap-IsBitmap st block g s) (omega arith) some_blocks (omega arith) (omega arith)
          (λ z. absurd (omega arith)) in
      let r' = reserve_loop mc 4096 0 blocks 11 0 (start mc page block st1) in
      let ks = take blocks (free_entries 4096 0 block) in
      let l' : Linked mc dr blocks 0 ks (start mc page block st1) r' =
        subst
          (λ n.
            Linked mc dr blocks 0 (take n (free_entries 4096 0 block)) (start mc page block st1) r')
          {x = blocks - 0} {y = blocks} (omega arith) l in
      (
        put mc ata0 r'.block 10 0 r'.mgr,
        ap
              (λ b.
                finish_reservation mc fuel blocks
                  (reserve_loop mc 4096 0 blocks 11 0 (start mc page b st1)))
              e
            ∙ finish_reservation_lem fuel blocks r' l'.reserved
            ∙ ap (λ p. some (pos 0, p, put mc ata0 r'.block 10 0 r'.mgr)) l'.page,
        Linked-Allocated st st1 page block ks blocks r' q l',
      )
