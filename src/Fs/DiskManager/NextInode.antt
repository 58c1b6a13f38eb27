-- ===== src/Fs/DiskManager/NextInode.antt =====
-- `diskManager_nextInode` and the header of the file system.
use so2c2011tp.Prelude.{
  ℕ, zero, ◌+◌, ◌*◌, ◌^◌, ◌<◌, ◌≤◌, ◌≡◌, ◌≢◌, refl, ap, sym, subst, ◌∙◌, Option, List, ◌++◌, arith,
  length, ◌==◌, if◌then◌else◌, AreBytes, true, drop, replicate, length-append, length-drop,
  length-replicate, append-AreBytes, drop-AreBytes, replicate-AreBytes,
}
use so2c2011tp.Prelude.Int.{ℤ, pos, negsuc}
use so2c2011tp.Driver.Ata.{ata0}
use so2c2011tp.Fs.Strategy.{Machine, Manager, fetch, put, e_out_of_memory}
use so2c2011tp.Fs.Strategy.Laws.{IsDrive, Slice}
use so2c2011tp.Fs.Strategy.Calls.{
  Stored, Quiet, fetch-Fetched, fetch-Quiet, put-Stored, Stored-Slice, Quiet-Stored,
}
use so2c2011tp.Fs.DiskManager.Bitmap.{entry, mark, first_free}
use so2c2011tp.Fs.DiskManager.Bitmap.Laws.{
  Found, all_taken, first, first_free-Found, entry-mark, mark-AreBytes, length-mark,
}
use so2c2011tp.Fs.Structs.{u32_bytes, u32_at, magic_number}
use so2c2011tp.Fs.Structs.RoundTrip.{u32_at-u32_bytes}
use so2c2011tp.Fs.DiskManager.Inodes.{next_inode, take_inode, validate_header, write_header}
use so2c2011tp.Fs.DiskManager.Places.{u32_bytes-AreBytes}

length_zeros : (n : ℕ) → length (replicate n (zero)) ≡ n
length_zeros n = length-replicate n zero

length_u32 : (n : ℕ) → length (u32_bytes n) ≡ 4
unfolding u32_bytes
length_u32 n = refl

length_header : (rest : List ℕ) → length rest ≡ 4 → length (u32_bytes magic_number ++ rest) ≡ 8
length_header rest e =
    omega (arith, length-append (u32_bytes magic_number) rest, length_u32 magic_number)

module _ {S : Type 0} (mc : Machine S) (dr : IsDrive mc.strategy) where
  -- The bitmap of inodes on the disk, behind the eight bytes of the header.
  abbrev pub HasInodeMap : Manager S → List ℕ → Type 0
  HasInodeMap st block = Slice (dr.byte st.drive ata0) (0 * 512 + 8) 504 block

  -- The answers of `diskManager_nextInode` on the bitmap `block`.
  pub data NextInode (st : Manager S) (block : List ℕ) : ℤ × Manager S → Type 0 where
    none_left :
        (st' : Manager S)
        → ((j : ℕ) → j < 4032 → entry block j ≢ 0)
        → dr.IsGood st'.drive
        → ((d y : ℕ) → y < 2 ^ 24 → dr.byte st'.drive d y ≡ dr.byte st.drive d y)
        → st'.errno ≡ e_out_of_memory
        → NextInode st block (negsuc 0, st')
    given :
        (k : ℕ) (st' : Manager S) (block' : List ℕ)
        → k < 4032
        → entry block k ≡ 0
        → ((j : ℕ) → j < k → entry block j ≢ 0)
        → ((j : ℕ) → entry block' j ≡ (if j == k then 1 else entry block j))
        → HasInodeMap st' block'
        → Stored mc dr st ata0 (0 * 512 + 8) block' st'
        → NextInode st block (pos k, st')

  take_inode-NextInode :
      (st st1 : Manager S) (block : List ℕ) (o : Option ℕ)
      → Quiet mc dr st st1
      → HasInodeMap st block
      → AreBytes block
      → Found block 0 4032 o
      → NextInode st block (take_inode mc block o st1)
  unfolding take_inode
  take_inode-NextInode st st1 block _ q s b (all_taken h) =
      none_left _ (λ j p. h j (omega arith) (omega arith)) q.good q.same refl
  take_inode-NextInode st st1 block _ q s b (first k _ p free h) =
      let len : length (mark block k) ≡ 504 = length-mark block k ∙ s.count in
      let w =
        put-Stored mc dr ata0 (mark block k) 0 8 st1 q.good refl (mark-AreBytes block k b)
          (omega arith) (omega (arith, len)) in
      given k _ (mark block k) (omega arith) free (λ j r. h j (omega arith) r)
        (λ j. entry-mark block k b j (omega (arith, s.count)))
        (Stored-Slice mc dr st1 _ ata0 (0 * 512 + 8) 504 (mark block k) len (omega arith) w)
        (Quiet-Stored mc dr st st1 _ ata0 (0 * 512 + 8) (mark block k) q w)

  -- `diskManager_nextInode` answers -1, with E_OUT_OF_MEMORY and no change of any disk, if all of
  -- the 4032 entries of the bitmap are taken; else it answers the first entry that is free, and
  -- takes that one entry: no other byte of any disk changes.
  pub next_inode_lem :
      (st : Manager S) (block : List ℕ)
      → dr.IsGood st.drive
      → HasInodeMap st block
      → NextInode st block (next_inode mc st)
  unfolding next_inode
  next_inode_lem st block g s =
      let f =
        fetch-Fetched mc dr (mc.stack 504) ata0 504 0 8 st g refl (omega arith) (omega arith) in
      let (e, q) =
        fetch-Quiet mc dr (mc.stack 504) ata0 504 0 8 st block g refl (omega arith) (omega arith)
          s in
      let st1 = (fetch mc (mc.stack 504) ata0 504 0 8 st).1 in
      subst (λ b. NextInode st block (take_inode mc b (first_free 4032 0 b) st1)) (sym e)
        (take_inode-NextInode st st1 block _ q s (subst AreBytes e f.bytes)
          (first_free-Found 4032 0 block))

  validate_header_lem :
      (rest : List ℕ) (st : Manager S)
      → dr.IsGood st.drive
      → Slice (dr.byte st.drive ata0) (0 * 512 + 0) 8 (u32_bytes magic_number ++ rest)
      → (validate_header mc st).0 ≡ true
  unfolding validate_header
  validate_header_lem rest st g s =
      let (e, _) =
        fetch-Quiet mc dr (mc.stack 8) ata0 8 0 0 st (u32_bytes magic_number ++ rest) g refl
          (omega arith) (omega arith) s in
      ap (λ b. u32_at b 0 == magic_number) e
      ∙ ap (λ n. n == magic_number) (u32_at-u32_bytes magic_number rest (omega arith))

  -- What a disk that was set up holds.
  pub record Fresh (st : Manager S) : Type 0 where
    pub good : dr.IsGood st.drive
    pub valid : (validate_header mc st).0 ≡ true
    pub inodes : HasInodeMap st (replicate 504 0)
    pub blocks : Slice (dr.byte st.drive ata0) (10 * 512 + 0) 512 (replicate 512 0)

  zeros-Stored :
      (n sector offset : ℕ) (st : Manager S)
      → dr.IsGood st.drive
      → sector < 2 ^ 15
      → sector * 512 + offset + n < 2 ^ 24
      → Stored mc dr st ata0
          (sector * 512 + offset)
          (replicate n 0)
          (put mc ata0 (replicate n 0) sector offset st)
  zeros-Stored n sector offset st g hs h =
      put-Stored mc dr ata0 (replicate n 0) sector offset st g refl
        (replicate-AreBytes n 0 (omega arith)) hs (omega (arith, length_zeros n))

  -- Zeros written behind a piece of the disk.
  zeros-behind :
      (st st' : Manager S) (x n y k : ℕ) (piece : List ℕ)
      → Stored mc dr st ata0 x (replicate n 0) st'
      → y + k ≤ x
      → x < 2 ^ 24
      → Slice (dr.byte st.drive ata0) y k piece
      → Slice (dr.byte st'.drive ata0) y k piece
  zeros-behind st st' x n y k piece w h hx s = record {
    count = s.count;
    bytes = λ j p. s.bytes j p ∙ sym (w.row ata0 (y + j) (omega arith) ∙ ground arith);
  }

  -- On a drive in a good state, with eight bytes on the stack, `write_header` leaves a good state in
  -- which `validate_header` answers true and every inode and every block is free in the bitmaps.
  pub write_header-Fresh :
      (st : Manager S)
      → dr.IsGood st.drive
      → length (mc.stack 8) ≡ 8
      → AreBytes (mc.stack 8)
      → Fresh (write_header mc st)
  unfolding write_header
  write_header-Fresh st g len b =
      let rest = drop 4 (mc.stack 8) in
      let header = u32_bytes magic_number ++ rest in
      let full : length header ≡ 8 =
        length_header rest (omega (arith, length-drop 4 (mc.stack 8))) in
      let st1 = put mc ata0 header 0 0 st in
      let st2 = put mc ata0 (replicate 504 0) 0 8 st1 in
      let st3 = put mc ata0 (replicate 512 0) 10 0 st2 in
      let bytes =
        append-AreBytes (u32_bytes magic_number) rest (u32_bytes-AreBytes magic_number)
          (drop-AreBytes 4 (mc.stack 8) b) in
      let w1 =
        put-Stored mc dr ata0 header 0 0 st g refl bytes (omega arith) (omega (arith, full)) in
      let w2 = zeros-Stored 504 0 8 st1 w1.good (omega arith) (omega arith) in
      let w3 = zeros-Stored 512 10 0 st2 w2.good (omega arith) (omega arith) in
      let s1 = Stored-Slice mc dr st st1 ata0 0 8 header full (omega arith) w1 in
      let s2 = zeros-behind st1 st2 8 504 0 8 header w2 (omega arith) (omega arith) s1 in
      let s3 = zeros-behind st2 st3 5120 512 0 8 header w3 (omega arith) (omega arith) s2 in
      let z2 = Stored-Slice mc dr st1 st2 ata0 8 504 _ (length_zeros 504) (omega arith) w2 in
      record {
        good = w3.good;
        valid = validate_header_lem rest st3 w3.good s3;
        inodes = zeros-behind st2 st3 5120 512 8 504 _ w3 (omega arith) (omega arith) z2;
        blocks = Stored-Slice mc dr st2 st3 ata0 5120 512 _ (length_zeros 512) (omega arith) w3;
      }
