-- ===== src/Fs/DiskManager/Create.antt =====
-- `diskManager_createInode` and `diskManager_readInode`.
use so2c2011tp.Prelude.{
  ℕ, ◌+◌, ◌*◌, ◌<◌, ◌≤◌, ◌≡◌, inl, inr, refl, ap, sym, subst, ◌∙◌, some, List, [], ◌∷◌, arith,
  length, ◌==◌, if◌then◌else◌, true, not, get_or, take,
}
use so2c2011tp.Driver.Ata.{ata0}
use so2c2011tp.Fs.Strategy.{Machine, Manager, fetch, put, e_corrupted_file}
use so2c2011tp.Fs.Strategy.Laws.{IsDrive}
use so2c2011tp.Fs.Strategy.Calls.{
  Quiet, Quiet-trans, fetch-Quiet, put-Stored, Stored-Slice, Stored-apart,
}
use so2c2011tp.Fs.Structs.{InodeDisk, FileHeader, magic_number, page_at, header_bytes, header_of}
use so2c2011tp.Fs.Structs.RoundTrip.{
  PageFits, InodeFits, HeaderFits, length-inode_bytes, length-header_bytes, header_of-header_bytes,
}
use so2c2011tp.Fs.DiskManager.Inodes.{Inode, get_inode, set_inode, read_inode, load_inode, strcpy}
use so2c2011tp.Fs.DiskManager.Files.{create_inode, created_header}
use so2c2011tp.Fs.DiskManager.Places.{get_inode_lem, set_inode-Stored, header_bytes-AreBytes}
use so2c2011tp.Fs.DiskManager.Headers.{Points, HasFile, Quiet-HasFile, header_address}
use so2c2011tp.Fs.DiskManager.Chains.{place, ChainOf, IsLast, HoldsPage, free_entries}
use so2c2011tp.Fs.DiskManager.Reserve.{row_of, first_page}
use so2c2011tp.Fs.DiskManager.Allocate.{HasBlockMap, reserve_memory_lem}

-- The inode of a file of one block.
abbrev pub new_inode : ℕ → InodeDisk
new_inode k = record { page = first_page 1 k; blocks = 1; used_bytes = 0 }

new_inode-fits : (k : ℕ) → k < 4096 → InodeFits (new_inode k)
new_inode-fits k h = ground arith

pub new_inode-Points : (k : ℕ) → k < 4096 → Points (first_page 1 k)
new_inode-Points k h = ground arith

module _ {S : Type 0} (mc : Machine S) (dr : IsDrive mc.strategy) where
  -- File `n` has the block `k`, with nothing written to it.
  pub record IsCreated (st : Manager S) (n k : ℕ) (h : FileHeader) : Type 0 where
    pub good : dr.IsGood st.drive
    pub file : HasFile mc dr st n (new_inode k) h
    pub page : HoldsPage (row_of mc dr st) k IsLast

  -- The inode and the header are stored behind the reservation of block `k`.
  stored-IsCreated :
      (n k : ℕ) (h : FileHeader) (st : Manager S)
      → dr.IsGood st.drive
      → HoldsPage (row_of mc dr st) k IsLast
      → n < 128
      → HeaderFits h
      → IsCreated
          (put mc ata0 (header_bytes h) 11 (k * 256 + 28) (set_inode mc n (new_inode k) st))
          n
          k
          h
  stored-IsCreated n k h st g (p, lt, last, s) hn fits =
      let st2 = set_inode mc n (new_inode k) st in
      let st3 = put mc ata0 (header_bytes h) 11 (k * 256 + 28) st2 in
      let len = length-header_bytes h fits in
      let w2 = set_inode-Stored mc dr n (new_inode k) st g (omega arith) in
      let w3 =
        put-Stored mc dr ata0 (header_bytes h) 11 (k * 256 + 28) st2 w2.good refl
          (header_bytes-AreBytes h fits.name_bytes) (omega arith) (omega (arith, len)) in
      let x2 : ℕ = 1 * 512 + n * 36 in
      let x3 : ℕ = 11 * 512 + (k * 256 + 28) in
      record {
        good = w3.good;
        file = record {
          number = hn;
          inode =
              Stored-apart mc dr st2 st3 ata0 x3 (header_bytes h) ata0 x2 36 _ w3 (omega arith)
                (inr (inl (omega arith)))
                (Stored-Slice mc dr st st2 ata0 x2 36 _ (length-inode_bytes (new_inode k))
                  (omega arith) w2);
          fits = new_inode-fits k lt;
          points = new_inode-Points k lt;
          header = Stored-Slice mc dr st2 st3 ata0 x3 48 _ len (omega arith) w3;
          header_fits = fits;
        };
        page = (
          p,
          lt,
          last,
          Stored-apart mc dr st2 st3 ata0 x3 (header_bytes h) ata0 (place k) 28 _ w3 (omega arith)
              (inr (inl (omega arith)))
              (Stored-apart mc dr st st2 ata0 x2 _ ata0 (place k) 28 _ w2 (omega arith)
                (inr (inr (omega (arith, length-inode_bytes (new_inode k))))) s),
        );
      }

  pub first_of :
      (v : ℕ → ℕ) (fs : List ℕ)
      → 1 ≤ length fs
      → ChainOf v (take 1 fs)
      → HoldsPage v (get_or (take 1 fs) 0 0) IsLast
  first_of v [] h c = absurd (omega arith)
  first_of v (k ∷ fs) h c = c

  -- With a free block `diskManager_createInode` makes file `n` of the first one, with the header that
  -- it is given.
  pub create_inode_lem :
      (fuel : ℕ) (inode : Inode) (n : ℕ) (name block : List ℕ) (st : Manager S)
      → dr.IsGood st.drive
      → PageFits (page_at (mc.stack 28) 0)
      → HasBlockMap mc dr st block
      → 1 ≤ length (free_entries 4096 0 block)
      → n < 128
      → HeaderFits (created_header mc inode name)
      → (st' : Manager S) × (create_inode mc fuel inode n name st ≡ some st')
        × IsCreated st' n
            (get_or (take 1 (free_entries 4096 0 block)) 0 0)
            (created_header mc inode name)
  unfolding create_inode
  create_inode_lem fuel inode n name block st g fits s enough hn hfits =
      let (st1, e, a) =
        reserve_memory_lem mc dr fuel (page_at (mc.stack 28) 0) 1 block st g fits s (omega arith)
          enough in
      let h = created_header mc inode name in
      let k = get_or (take 1 (free_entries 4096 0 block)) 0 0 in
      let page = first_of (row_of mc dr st1) (free_entries 4096 0 block) enough a.chain in
      let made = stored-IsCreated n k h st1 a.good page hn hfits in
      (
        put mc ata0 (header_bytes h) 11 (k * 256 + 28) (set_inode mc n (new_inode k) st1),
        rw (e, create_inode)
            (ap (λ o. some (put mc ata0 (header_bytes h) 11 o (set_inode mc n (new_inode k) st1)))
              (header_address mc dr (first_page 1 k) (new_inode-Points k page.1))),
        made,
      )

  -- What `diskManager_readInode` yields of inode `i` and header `h`.
  abbrev pub loaded : Inode → ℕ → InodeDisk → FileHeader → Inode
  loaded old n i h = record {
    sector = i.page.next_sector;
    offset = i.page.next_offset;
    inode_id = n;
    uid = h.uid;
    gid = h.gid;
    flags = h.flags;
    length = i.used_bytes;
    impl = h.impl;
    mask = h.mask;
    name = strcpy old.name h.name;
  }

  load_inode_lem :
      (old : Inode) (n : ℕ) (i : InodeDisk) (h : FileHeader) (st : Manager S)
      → dr.IsGood st.drive
      → HasFile mc dr st n i h
      → h.magic ≡ magic_number
      → let (got, st') = load_inode mc old n i st in (got ≡ loaded old n i h) × Quiet mc dr st st'
  unfolding load_inode
  load_inode_lem old n i h st g f m =
      let p = i.page in
      let (e, q) =
        fetch-Quiet mc dr (mc.stack 48) p.disk 48 p.next_sector (p.next_offset + 28) st
          (header_bytes h) g f.points.disk f.points.sector.1 (omega (arith, f.points.range))
          f.header in
      let got = ap header_of e ∙ header_of-header_bytes h f.header_fits in
      let st1 = (fetch mc (mc.stack 48) p.disk 48 p.next_sector (p.next_offset + 28) st).1 in
      let answer = λ (x : FileHeader).
        if◌then◌else◌ {A = Inode × Manager S} (not (x.magic == magic_number))
          (old, record st1 { errno = e_corrupted_file }) (loaded old n i x, st1) in
      let right : ((answer h).0 ≡ loaded old n i h) × Quiet mc dr st (answer h).1 =
        let known : (h.magic == magic_number) ≡ true = ground arith in rw known (refl, q) in
      rw (f.points.magic, header_address mc dr p f.points)
        (subst (λ x. ((answer x).0 ≡ loaded old n i h) × Quiet mc dr st (answer x).1) (sym got)
          right)

  -- A file that stands on the disk is loaded with its attributes and its length.
  pub read_inode_lem :
      (old : Inode) (n : ℕ) (i : InodeDisk) (h : FileHeader) (st : Manager S)
      → dr.IsGood st.drive
      → HasFile mc dr st n i h
      → h.magic ≡ magic_number
      → let (got, st') = read_inode mc old n st in (got ≡ loaded old n i h) × Quiet mc dr st st'
  unfolding read_inode
  read_inode_lem old n i h st g f m =
      let (e, q) = get_inode_lem mc dr n i st g (omega (arith, f.number)) f.fits f.inode in
      let st1 = (get_inode mc n st).1 in
      let (e', q') = load_inode_lem old n i h st1 q.good (Quiet-HasFile mc dr st st1 n i h q f) m in
      subst
        (λ j. let r = load_inode mc old n j st1 in (r.0 ≡ loaded old n i h) × Quiet mc dr st r.1)
        (sym e) (e', Quiet-trans mc dr st st1 _ q q')
