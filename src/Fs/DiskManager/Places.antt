-- ===== src/Fs/DiskManager/Places.antt =====
-- What stands at the places of the disk: inodes, pages, headers and bitmaps, and how they are read
-- and written.
use so2c2011tp.Prelude.{
  ℕ, ◌+◌, ◌*◌, ◌^◌, ◌<◌, ◌≡◌, inl, inr, refl, ap, ◌∙◌, ◌++◌, arith, ◌==◌, if◌then◌else◌, AreBytes,
  append-AreBytes, Bool-cases, ==_iff,
}
use so2c2011tp.Driver.Ata.{ata0}
use so2c2011tp.Fs.Strategy.{Machine, Manager}
use so2c2011tp.Fs.Strategy.Laws.{IsDrive, Slice}
use so2c2011tp.Fs.Strategy.Calls.{
  Stored, Quiet, fetch-Quiet, put-Stored, Stored-Slice, Stored-apart,
}
use so2c2011tp.Fs.Structs.{
  DiskPage, InodeDisk, FileHeader, u32_bytes, page_bytes, inode_bytes, inode_of, header_bytes,
}
use so2c2011tp.Fs.Structs.RoundTrip.{
  InodeFits, inode_of-inode_bytes, length-inode_bytes, tail_bytes,
}
use so2c2011tp.Fs.DiskManager.Inodes.{get_inode, set_inode}

pub u32_bytes-AreBytes : (n : ℕ) → AreBytes (u32_bytes n)
unfolding u32_bytes
u32_bytes-AreBytes n = omega arith

pub page_bytes-AreBytes : (p : DiskPage) → AreBytes (page_bytes p)
unfolding page_bytes u32_bytes
page_bytes-AreBytes p = omega arith

pub inode_bytes-AreBytes : (i : InodeDisk) → AreBytes (inode_bytes i)
unfolding inode_bytes page_bytes u32_bytes
inode_bytes-AreBytes i = omega arith

tail_bytes-AreBytes : (h : FileHeader) → AreBytes (tail_bytes h)
unfolding u32_bytes
tail_bytes-AreBytes h = omega arith

pub header_bytes-AreBytes : (h : FileHeader) → AreBytes h.name → AreBytes (header_bytes h)
unfolding header_bytes
header_bytes-AreBytes h b =
    append-AreBytes (u32_bytes h.magic) (h.name ++ tail_bytes h) (u32_bytes-AreBytes h.magic)
      (append-AreBytes h.name (tail_bytes h) b (tail_bytes-AreBytes h))

-- How many inodes fit between the sector of the bitmap of inodes and that of the bitmap of blocks.
abbrev pub inodes_that_fit : ℕ
inodes_that_fit = 128

module _ {S : Type 0} (mc : Machine S) (dr : IsDrive mc.strategy) where
  -- Inode `n` stands on the disk.
  abbrev pub HasInode : Manager S → ℕ → InodeDisk → Type 0
  HasInode st n i = Slice (dr.byte st.drive ata0) (1 * 512 + n * 36) 36 (inode_bytes i)

  pub get_inode_lem :
      (n : ℕ) (i : InodeDisk) (st : Manager S)
      → dr.IsGood st.drive
      → n < 2 ^ 18
      → InodeFits i
      → HasInode st n i
      → let (got, st') = get_inode mc n st in (got ≡ i) × Quiet mc dr st st'
  unfolding get_inode
  get_inode_lem n i st g h f s =
      let (got, q) =
        fetch-Quiet mc dr (mc.stack 36) ata0 36 1 (n * 36) st (inode_bytes i) g refl (omega arith)
          (omega arith) s in
      (ap inode_of got ∙ inode_of-inode_bytes i f, q)

  pub set_inode-Stored :
      (n : ℕ) (i : InodeDisk) (st : Manager S)
      → dr.IsGood st.drive
      → n < 2 ^ 18
      → Stored mc dr st ata0 (1 * 512 + n * 36) (inode_bytes i) (set_inode mc n i st)
  unfolding set_inode
  set_inode-Stored n i st g h =
      put-Stored mc dr ata0 (inode_bytes i) 1 (n * 36) st g refl (inode_bytes-AreBytes i)
        (omega arith) (omega (arith, length-inode_bytes i))

  pub set_inode-HasInode :
      (n : ℕ) (i : InodeDisk) (st : Manager S)
      → dr.IsGood st.drive
      → n < 2 ^ 18
      → HasInode (set_inode mc n i st) n i
  set_inode-HasInode n i st g h =
      Stored-Slice mc dr st _ ata0 (1 * 512 + n * 36) 36 (inode_bytes i) (length-inode_bytes i)
        (omega arith) (set_inode-Stored n i st g h)

  -- An inode that was stored is what is read of it, and every other inode is read as before.
  pub get_inode-set_inode :
      (n m : ℕ) (i j : InodeDisk) (st : Manager S)
      → dr.IsGood st.drive
      → n < 2 ^ 18
      → m < 2 ^ 18
      → InodeFits i
      → InodeFits j
      → HasInode st m j
      → (get_inode mc m (set_inode mc n i st)).0 ≡ (if m == n then i else j)
  get_inode-set_inode n m i j st g hn hm fi fj s =
      let w = set_inode-Stored n i st g hn in
      elim (Bool-cases (m == n)) [
        | inl same ↦
            rw (same, (==_iff m n).0 same)
              ((get_inode_lem n i _ w.good hn fi (set_inode-HasInode n i st g hn)).0)
        | inr other ↦ rw other (
            (get_inode_lem m j _ w.good hm fj (
              Stored-apart mc dr st _ ata0 _ _ ata0 (1 * 512 + m * 36) 36 (inode_bytes j) w
                (omega arith) (inr (ground (arith, length-inode_bytes i))) s)).0)
      ]
