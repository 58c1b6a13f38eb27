-- ===== src/Fs/DiskManager/FileBytes.antt =====
-- The bytes of a file of one block, through `_writeBlock` and `_readBlock`.
use so2c2011tp.Prelude.{
  ℕ, suc, ◌+◌, ◌-◌, ◌*◌, ◌<◌, ◌≤◌, ◌≡◌, refl, ap, ◌∙◌, some, List, [], ◌∷◌, ◌++◌, arith, length,
  ◌==◌, ltb, true, false, not, take, drop, AreBytes, take_all, min, length-drop, length-take,
  drop_all, get_or-take, get_or-drop,
}
use so2c2011tp.Prelude.Int.{pos}
use so2c2011tp.Driver.Ata.{ata0}
use so2c2011tp.Fs.Strategy.{Machine, Manager, fetch}
use so2c2011tp.Fs.Strategy.Laws.{IsDrive, Slice}
use so2c2011tp.Fs.Strategy.Calls.{Quiet, Quiet-trans, Quiet-Slice, fetch-Quiet}
use so2c2011tp.Fs.Structs.{DiskPage, magic_number, add32, sub32}
use so2c2011tp.Fs.DiskManager.Transfer.{
  write_piece, write_pages, write_block, write_first, read_first, read_pages, read_block,
  after_piece,
}
use so2c2011tp.Fs.DiskManager.Chains.{place}
use so2c2011tp.Fs.DiskManager.Free.{PointsTo, page_read}
use so2c2011tp.Fs.DiskManager.Splice.{splice}
use so2c2011tp.Fs.DiskManager.Contents.{Uses, Holds, WrittenTo, beyond, write_piece-WrittenTo}

no_rest : (xs buffer : List ℕ) → xs ++ drop (length buffer) buffer ≡ xs
no_rest [] buffer = drop_all buffer
no_rest (x ∷ xs) buffer = ap (λ l. x ∷ l) (no_rest xs buffer)

-- A part of the bytes that stand at a place.
part-Slice :
    (v : ℕ → ℕ) (x o y : ℕ) (content : List ℕ) (n : ℕ)
    → o + n ≤ length content
    → y ≡ x + o
    → Slice v x (length content) content
    → Slice v y n (take n (drop o content))
part-Slice v x o y content n fit e s = record {
  count = omega (arith, length-take n (drop o content), length-drop o content);
  bytes = λ k p.
      get_or-take n (drop o content) k 0 p
      ∙ get_or-drop o content k 0
      ∙ s.bytes (o + k) (omega arith)
      ∙ ap v (omega arith);
}

module _ {S : Type 0} (mc : Machine S) (dr : IsDrive mc.strategy) where
  -- Nothing is left to write.
  write_pages-none :
      (fuel disk offset : ℕ) (curr : DiskPage) (contents : List ℕ) (left : ℕ) (st : Manager S)
      → left ≡ 0
      → write_pages mc (suc fuel) disk curr contents left offset st ≡ some (pos 0, st)
  unfolding write_pages
  write_pages-none fuel disk offset curr contents left st e = rw e

  read_pages-none :
      (fuel disk offset : ℕ) (curr : DiskPage) (buffer : List ℕ) (left : ℕ) (st : Manager S)
      → left ≡ 0
      → read_pages mc (suc fuel) disk curr buffer left offset st ≡ some (buffer, st)
  unfolding read_pages
  read_pages-none fuel disk offset curr buffer left st e = rw e

  pub Quiet-Holds :
      (st st1 : Manager S) (k : ℕ) (content : List ℕ)
      → Quiet mc dr st st1
      → Holds mc dr st k content
      → Holds mc dr st1 k content
  Quiet-Holds st st1 k content q h = record {
    good = q.good;
    block = h.block;
    page = h.page;
    uses = h.uses;
    room = h.room;
    page_slice =
        Quiet-Slice mc dr st st1 ata0 (place k) 28 _ q (omega (arith, h.block)) h.page_slice;
    bytes =
        Quiet-Slice mc dr st st1 ata0 (place k + 76) _ _ q (omega (arith, h.block, h.room)) h.bytes;
  }

  Quiet-WrittenTo :
      (st st1 st2 : Manager S) (k : ℕ) (content : List ℕ)
      → Quiet mc dr st st1
      → k < 4096
      → WrittenTo mc dr st1 k content st2
      → WrittenTo mc dr st k content st2
  Quiet-WrittenTo st st1 st2 k content q lt w = record {
    holds = w.holds;
    errno = w.errno ∙ q.errno;
    others = λ y n piece a s.
        w.others y n piece a (Quiet-Slice mc dr st st1 ata0 y n piece q (beyond k y n lt a) s);
  }

  write_first_lem :
      (fuel k o : ℕ) (page curr : DiskPage) (msg : List ℕ) (len : ℕ) (st : Manager S)
      → PointsTo k page
      → Uses len curr
      → o + length msg ≤ 180
      → o < 180
      → write_first mc (suc fuel) page curr msg (length msg) o st
        ≡ some (pos 0, (write_piece mc 76 ata0 curr 11 (k * 256) msg o st).1)
  unfolding write_first
  write_first_lem fuel k o page curr msg len st t u fit inside =
      let n : min (sub32 (sub32 curr.total_length o) 76) (length msg) ≡ length msg =
        omega (arith, u.total_length) in
      let room : ltb o (sub32 curr.total_length 76) ≡ true = ground (arith, u.total_length) in
      let known : not (curr.magic == magic_number) ≡ false = ground (arith, u.magic) in
      rw
        (
          t.disk,
          t.next_sector,
          t.next_offset,
          known,
          room,
          n,
          take_all (length msg) msg (omega arith),
        )
        (write_pages-none fuel ata0 0 _ _ (length msg - length msg) _ (omega arith))

  -- `_writeBlock` in a file of one block that holds `content`: the bytes are written in their place,
  -- inside the content or at its end.
  pub write_block_lem :
      (fuel k o : ℕ) (page : DiskPage) (content msg : List ℕ) (st : Manager S)
      → Holds mc dr st k content
      → PointsTo k page
      → o ≤ length content
      → o < 180
      → o + length msg ≤ 180
      → AreBytes msg
      → (st' : Manager S) × (write_block mc (suc fuel) page msg (length msg) o st
          ≡ some (pos 0, st'))
        × WrittenTo mc dr st k (splice content o msg) st'
  unfolding write_block
  write_block_lem fuel k o page content msg st h t at_most inside fit b =
      let (e, q) =
        page_read mc dr (mc.stack 28) page.disk page.next_sector page.next_offset k h.page st h.good
          t.disk t.next_sector t.next_offset h.block h.uses.fits h.page_slice in
      let st1 = (fetch mc (mc.stack 28) page.disk 28 page.next_sector page.next_offset st).1 in
      let w =
        write_piece-WrittenTo mc dr h.page k o content msg st1 q.good h.block h.uses h.room at_most
          fit b
          (Quiet-Slice mc dr st st1 ata0 (place k) 28 _ q (omega (arith, h.block)) h.page_slice)
          (Quiet-Slice mc dr st st1 ata0 (place k + 76) _ _ q (omega (arith, h.block, h.room))
            h.bytes) in
      (
        (write_piece mc 76 ata0 h.page 11 (k * 256) msg o st1).1,
        ap (λ c. write_first mc (suc fuel) page c msg (length msg) o st1) e
            ∙ write_first_lem fuel k o page h.page msg (length content) st1 t h.uses fit inside,
        Quiet-WrittenTo st st1 _ k (splice content o msg) q h.block w,
      )

  read_first_lem :
      (fuel k o : ℕ) (page curr : DiskPage) (buffer : List ℕ) (len : ℕ) (st : Manager S)
      → PointsTo k page
      → k < 4096
      → Uses len curr
      → len ≤ 180
      → 1 ≤ length buffer
      → o + length buffer ≤ len
      → let (piece, st') = fetch mc buffer ata0 (length buffer) 11 (k * 256 + 76 + o) st in
        read_first mc (suc fuel) page curr buffer (length buffer) o st
        ≡ some (pos 0, piece ++ drop (length buffer) buffer, st')
  unfolding read_first after_piece
  read_first_lem fuel k o page curr buffer len st t lt u room some_bytes fit =
      let n : min (sub32 (sub32 curr.total_length 76) o) (length buffer) ≡ length buffer =
        omega (arith, u.total_length) in
      let inside : ltb o (sub32 curr.used_bytes 76) ≡ true = ground (arith, u.used_bytes) in
      let known : not (curr.magic == magic_number) ≡ false = ground (arith, u.magic) in
      let address : add32 (add32 (k * 256) 76) o ≡ k * 256 + 76 + o = omega arith in
      let more : (length buffer == 0) ≡ false = ground arith in
      rw
        (
          t.disk,
          t.next_sector,
          t.next_offset,
          known,
          inside,
          n,
          more,
          address,
          take_all (length buffer) buffer (omega arith),
        )
        (ap (after_piece _) (
          read_pages-none fuel ata0 0 curr (drop (length buffer) buffer)
            (length buffer - length buffer) _ (omega arith)))

  -- `_readBlock` in a file of one block that holds `content`: the bytes asked for, if there are any
  -- and all are there, fill the caller's buffer, and no disk changes.
  pub read_block_lem :
      (fuel k o : ℕ) (page : DiskPage) (content buffer : List ℕ) (st : Manager S)
      → Holds mc dr st k content
      → PointsTo k page
      → 1 ≤ length buffer
      → o + length buffer ≤ length content
      → (st' : Manager S) × (read_block mc (suc fuel) page buffer (length buffer) o st
          ≡ some (pos 0, take (length buffer) (drop o content), st'))
        × Quiet mc dr st st'
  unfolding read_block
  read_block_lem fuel k o page content buffer st h t some_bytes fit =
      let (e, q) =
        page_read mc dr (mc.stack 28) page.disk page.next_sector page.next_offset k h.page st h.good
          t.disk t.next_sector t.next_offset h.block h.uses.fits h.page_slice in
      let st1 = (fetch mc (mc.stack 28) page.disk 28 page.next_sector page.next_offset st).1 in
      let x : ℕ = k * 256 + 76 + o in
      let bytes =
        Quiet-Slice mc dr st st1 ata0 (place k + 76) _ _ q (omega (arith, h.block, h.room))
          h.bytes in
      let (e2, q2) =
        fetch-Quiet mc dr buffer ata0 (length buffer) 11 x st1
          (take (length buffer) (drop o content)) q.good refl (omega arith)
          (omega (arith, h.block, h.room))
          (part-Slice _ (place k + 76) o (11 * 512 + x) content (length buffer) fit (omega arith)
            bytes) in
      let st2 = (fetch mc buffer ata0 (length buffer) 11 x st1).1 in
      (
        st2,
        ap (λ c. read_first mc (suc fuel) page c buffer (length buffer) o st1) e
            ∙ read_first_lem fuel k o page h.page buffer (length content) st1 t h.block h.uses
                h.room some_bytes fit
            ∙ ap (λ b. some (pos 0, b ++ drop (length buffer) buffer, st2)) e2
            ∙ ap (λ b. some (pos 0, b, st2))
                (no_rest (take (length buffer) (drop o content)) buffer),
        Quiet-trans mc dr st st1 st2 q q2,
      )
