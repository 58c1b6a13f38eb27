-- ===== src/Fs/DiskManager/ReadWrite.antt =====
-- `diskManager_writeContents` and `diskManager_readContents` on files of one block.
use so2c2011tp.Prelude.{
  ℕ, suc, ◌+◌, ◌<◌, ◌≤◌, ◌≡◌, refl, ap, sym, ◌∙◌, some, List, arith, length, ltb, false, take, drop,
  AreBytes, max,
}
use so2c2011tp.Prelude.Int.{pos}
use so2c2011tp.Fs.Strategy.{Machine, Manager}
use so2c2011tp.Fs.Strategy.Laws.{IsDrive}
use so2c2011tp.Fs.Strategy.Calls.{Quiet}
use so2c2011tp.Fs.Structs.{FileHeader, add32}
use so2c2011tp.Fs.DiskManager.Inodes.{get_inode, set_inode, available_mem}
use so2c2011tp.Fs.DiskManager.Transfer.{
  write_block, read_block, write_inode_contents, write_to_inode, write_contents, read_from_inode,
  read_contents, grow, after_write,
}
use so2c2011tp.Fs.DiskManager.Places.{get_inode_lem}
use so2c2011tp.Fs.DiskManager.Headers.{Quiet-HasFile}
use so2c2011tp.Fs.DiskManager.Reserve.{first_page}
use so2c2011tp.Fs.DiskManager.Splice.{splice, length-splice, take-drop-splice}
use so2c2011tp.Fs.DiskManager.FileBytes.{write_block_lem, read_block_lem, Quiet-Holds}
use so2c2011tp.Fs.DiskManager.SmallFile.{IsSmallFile, small_inode, points_to, stored-IsSmallFile}

grow_lem : (k used until : ℕ) → grow until (small_inode k used) ≡ small_inode k (max used until)
unfolding grow
grow_lem k used until = ground arith

module _ {S : Type 0} (mc : Machine S) (dr : IsDrive mc.strategy) where
  Quiet-IsSmallFile :
      (st st1 : Manager S) (n k : ℕ) (h : FileHeader) (content : List ℕ)
      → Quiet mc dr st st1
      → IsSmallFile mc dr st n k h content
      → IsSmallFile mc dr st1 n k h content
  Quiet-IsSmallFile st st1 n k h content q f = record {
    file = Quiet-HasFile mc dr st st1 n _ h q f.file;
    holds = Quiet-Holds mc dr st st1 k content q f.holds;
  }

  -- The inode is read as it stands.
  inode_read :
      (n k : ℕ) (h : FileHeader) (content : List ℕ) (st : Manager S)
      → IsSmallFile mc dr st n k h content
      → let (i, st1) = get_inode mc n st in
        (i ≡ small_inode k (length content)) × Quiet mc dr st st1
  inode_read n k h content st f =
      get_inode_lem mc dr n (small_inode k (length content)) st f.holds.good
        (omega (arith, f.file.number)) f.file.fits f.file.inode

  write_inode_contents_lem :
      (fuel n k o used : ℕ) (msg : List ℕ) (st st2 : Manager S)
      → write_block mc fuel (first_page 1 k) msg (length msg) o st ≡ some (pos 0, st2)
      → o + length msg ≤ 180
      → write_inode_contents mc fuel n (small_inode k used) msg (length msg) o st
        ≡ some (pos 0, set_inode mc n (small_inode k (max used (o + length msg))) st2)
  unfolding write_inode_contents after_write
  write_inode_contents_lem fuel n k o used msg st st2 e fit =
      let until : add32 o (length msg) ≡ o + length msg = omega arith in
      ap
        (λ u.
          after_write mc n (grow u (small_inode k used))
            (write_block mc fuel (grow u (small_inode k used)).page msg (length msg) o st))
        until
      ∙ ap (λ i. after_write mc n i (write_block mc fuel i.page msg (length msg) o st))
          (grow_lem k used (o + length msg))
      ∙ ap (after_write mc n (small_inode k (max used (o + length msg)))) e

  write_to_inode_lem :
      (fuel n k o used : ℕ) (msg : List ℕ) (st : Manager S)
      → o + length msg ≤ 180
      → write_to_inode mc fuel n (small_inode k used) msg (length msg) o st
        ≡ write_inode_contents mc fuel n (small_inode k used) msg (length msg) o st
  unfolding write_to_inode available_mem
  write_to_inode_lem fuel n k o used msg st fit =
      let enough : ltb 180 (add32 o (length msg)) ≡ false = ground arith in rw enough

  -- A write to a file of one block that ends in the block, inside the content or at its end, answers 0
  -- and leaves the file with the bytes in their place, the rest of its content, its header and its
  -- block as they were.
  pub write_contents_lem :
      (fuel n k o : ℕ) (h : FileHeader) (content msg : List ℕ) (st : Manager S)
      → IsSmallFile mc dr st n k h content
      → o ≤ length content
      → o < 180
      → o + length msg ≤ 180
      → AreBytes msg
      → (st' : Manager S) × (write_contents mc (suc fuel) n msg (length msg) o st
          ≡ some (pos 0, st'))
        × IsSmallFile mc dr st' n k h (splice content o msg)
  unfolding write_contents
  write_contents_lem fuel n k o h content msg st f at_most inside fit b =
      let (e, q) = inode_read n k h content st f in
      let st1 = (get_inode mc n st).1 in
      let f1 = Quiet-IsSmallFile st st1 n k h content q f in
      let (st2, e2, w) =
        write_block_lem mc dr fuel k o (first_page 1 k) content msg st1 f1.holds (points_to k)
          at_most inside fit b in
      (
        set_inode mc n (small_inode k (length (splice content o msg))) st2,
        ap (λ i. write_to_inode mc (suc fuel) n i msg (length msg) o st1) e
            ∙ write_to_inode_lem (suc fuel) n k o (length content) msg st1 fit
            ∙ write_inode_contents_lem (suc fuel) n k o (length content) msg st1 st2 e2 fit
            ∙ ap (λ m. some (pos 0, set_inode mc n (small_inode k m) st2))
                (sym (length-splice content o msg at_most)),
        stored-IsSmallFile mc dr st1 st2 n k h content (splice content o msg) f1 w,
      )

  read_from_inode_lem :
      (fuel k o used : ℕ) (buffer : List ℕ) (st : Manager S)
      → read_from_inode mc fuel (small_inode k used) buffer (length buffer) o st
        ≡ read_block mc fuel (first_page 1 k) buffer (length buffer) o st
  unfolding read_from_inode
  read_from_inode_lem fuel k o used buffer st = refl

  -- A read of a file of one block that asks for bytes that are all there answers 0 and fills the
  -- caller's buffer with them; the file stays as it is.
  pub read_contents_lem :
      (fuel n k o : ℕ) (h : FileHeader) (content buffer : List ℕ) (st : Manager S)
      → IsSmallFile mc dr st n k h content
      → 1 ≤ length buffer
      → o + length buffer ≤ length content
      → (st' : Manager S) × (read_contents mc (suc fuel) n buffer (length buffer) o st
          ≡ some (pos 0, take (length buffer) (drop o content), st'))
        × IsSmallFile mc dr st' n k h content
  unfolding read_contents
  read_contents_lem fuel n k o h content buffer st f some_bytes fit =
      let (e, q) = inode_read n k h content st f in
      let st1 = (get_inode mc n st).1 in
      let f1 = Quiet-IsSmallFile st st1 n k h content q f in
      let (st2, e2, q2) =
        read_block_lem mc dr fuel k o (first_page 1 k) content buffer st1 f1.holds (points_to k)
          some_bytes fit in
      (
        st2,
        ap (λ i. read_from_inode mc (suc fuel) i buffer (length buffer) o st1) e
            ∙ read_from_inode_lem (suc fuel) k o (length content) buffer st1
            ∙ e2,
        Quiet-IsSmallFile st1 st2 n k h content q2 f1,
      )

  -- What was written to a file of one block, at least one byte, from inside its content or its end on
  -- and up to byte 180, is read back into a buffer of its length, and both calls answer 0.
  pub read_contents-write_contents :
      (fuel n k o : ℕ) (h : FileHeader) (content msg buffer : List ℕ) (st : Manager S)
      → IsSmallFile mc dr st n k h content
      → o ≤ length content
      → 1 ≤ length msg
      → o + length msg ≤ 180
      → AreBytes msg
      → length buffer ≡ length msg
      → (st1 st2 : Manager S) × (write_contents mc (suc fuel) n msg (length msg) o st
          ≡ some (pos 0, st1))
        × (read_contents mc (suc fuel) n buffer (length buffer) o st1 ≡ some (pos 0, msg, st2))
  read_contents-write_contents fuel n k o h content msg buffer st f at_most some_bytes fit b e =
      let (st1, wrote, f1) =
        write_contents_lem fuel n k o h content msg st f at_most (omega arith) fit b in
      let (st2, got, _) =
        read_contents_lem fuel n k o h (splice content o msg) buffer st1 f1 (omega arith)
          (omega (arith, length-splice content o msg at_most)) in
      (
        st1,
        st2,
        wrote,
        got
            ∙ ap (λ m. some (pos 0, take m (drop o (splice content o msg)), st2)) e
            ∙ ap (λ m. some (pos 0, m, st2)) (take-drop-splice content o msg at_most),
      )
