-- ===== src/Fs/DiskManager/Overlap.antt =====
-- The inodes and the bitmap of blocks: the sectors from 1 to 9 have room for 128 inodes.
use so2c2011tp.Prelude.{
  ℕ, ◌+◌, ◌-◌, ◌*◌, ◌^◌, ◌<◌, ◌≤◌, ◌≡◌, inl, inr, ap, subst, ◌∙◌, ◌&&◌, List, arith, length, ◌==◌,
  ltb, leb, if◌then◌else◌, Bool-cases, get_or,
}
use so2c2011tp.Driver.Ata.{ata0}
use so2c2011tp.Fs.Strategy.{Machine, Manager}
use so2c2011tp.Fs.Strategy.Laws.{IsDrive, Slice}
use so2c2011tp.Fs.Strategy.Calls.{Stored, Stored-apart}
use so2c2011tp.Fs.Structs.{InodeDisk, inode_bytes}
use so2c2011tp.Fs.Structs.RoundTrip.{length-inode_bytes}
use so2c2011tp.Fs.DiskManager.Inodes.{set_inode}
use so2c2011tp.Fs.DiskManager.Places.{set_inode-Stored}
use so2c2011tp.Fs.DiskManager.Allocate.{HasBlockMap}
use so2c2011tp.Fs.DiskManager.Reserve.{row_of}
use so2c2011tp.Fs.DiskManager.Splice.{splice, length-splice, get_or-splice}

module _ {S : Type 0} (mc : Machine S) (dr : IsDrive mc.strategy) where
  -- Bytes written inside a piece of the disk.
  inside_Slice :
      (st st' : Manager S) (x n o : ℕ) (piece msg : List ℕ)
      → x + n < 2 ^ 24
      → o + length msg ≤ n
      → Slice (row_of mc dr st) x n piece
      → Stored mc dr st ata0 (x + o) msg st'
      → Slice (row_of mc dr st') x n (splice piece o msg)
  inside_Slice st st' x n o piece msg h fit s w = record {
    count = omega (arith, s.count, length-splice piece o msg (omega (arith, s.count)));
    bytes = λ j p.
        get_or-splice piece o msg j (omega (arith, s.count))
        ∙ one j p (w.row ata0 (x + j) (omega arith)) (s.bytes j p)
            (ap (λ n. get_or msg n 0) {x = x + j - (x + o)} {y = j - o} (omega arith));
  }
    where
      one :
          (j : ℕ)
          → j < n
          → row_of mc dr st' (x + j) ≡ (
              if (ata0 == ata0) && (leb (x + o) (x + j) && ltb (x + j) (x + o + length msg))
              then get_or msg (x + j - (x + o)) 0
              else row_of mc dr st (x + j))
          → get_or piece j 0 ≡ row_of mc dr st (x + j)
          → get_or msg (x + j - (x + o)) 0 ≡ get_or msg (j - o) 0
          → (if leb o j && ltb j (o + length msg) then get_or msg (j - o) 0 else get_or piece j 0)
            ≡ row_of mc dr st' (x + j)
      one j p w s e = ground arith

  -- Storing one of the first 128 inodes leaves the bitmap of blocks alone; inode 128 and those that
  -- follow, up to inode 141, are written over it.
  pub set_inode_block_map :
      (n : ℕ) (i : InodeDisk) (block : List ℕ) (st : Manager S)
      → dr.IsGood st.drive
      → n ≤ 141
      → HasBlockMap mc dr st block
      → HasBlockMap mc dr
          (set_inode mc n i st)
          (if ltb n 128 then block else splice block ((n - 128) * 36) (inode_bytes i))
  set_inode_block_map n i block st g h s =
      let st' = set_inode mc n i st in
      let w = set_inode-Stored mc dr n i st g (omega arith) in
      elim (Bool-cases (ltb n 128)) [
        | inl low ↦ rw low (
            Stored-apart mc dr st st' ata0 _ (inode_bytes i) ata0 (10 * 512 + 0) 512 block w
              (omega arith) (inr (inr (ground (arith, length-inode_bytes i)))) s)
        | inr high ↦ rw high (
            inside_Slice st st' (10 * 512 + 0) 512 ((n - 128) * 36) block (inode_bytes i)
              (omega arith) (omega (arith, length-inode_bytes i)) s
              (subst (λ x. Stored mc dr st ata0 x (inode_bytes i) st') {x = 1 * 512 + n * 36}
                {y = 10 * 512 + 0 + (n - 128) * 36} (ground arith) w))
      ]
