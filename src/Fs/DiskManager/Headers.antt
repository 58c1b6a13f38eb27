-- ===== src/Fs/DiskManager/Headers.antt =====
-- The header of a file: where it stands, and what the setters of its fields do.
use so2c2011tp.Prelude.{
  ℕ, ◌+◌, ◌*◌, ◌^◌, ◌<◌, ◌≤◌, ◌≡◌, inl, inr, refl, ap, sym, subst, ◌∙◌, true, arith,
}
use so2c2011tp.Prelude.Int.{pos}
use so2c2011tp.Driver.Ata.{is_disk, ata0}
use so2c2011tp.Fs.Strategy.{Machine, Manager}
use so2c2011tp.Fs.Strategy.Laws.{IsDrive, Slice, Overwritten}
use so2c2011tp.Fs.Strategy.Calls.{
  Stored, Quiet, Quiet-Slice, fetch-Quiet, put-Stored, Stored-Slice, Stored-apart, Quiet-trans,
  Quiet-Stored,
}
use so2c2011tp.Fs.Structs.{
  DiskPage, InodeDisk, FileHeader, magic_number, add32, inode_bytes, header_bytes, header_of,
}
use so2c2011tp.Fs.Structs.RoundTrip.{
  InodeFits, HeaderFits, length-header_bytes, header_of-header_bytes,
}
use so2c2011tp.Fs.DiskManager.Inodes.{
  read_header, store_header, get_file_header, set_file_header, change_header, set_file_mode,
  set_file_uid, set_file_gid, clear_errno, unset, get_inode,
}
use so2c2011tp.Fs.DiskManager.Places.{HasInode, get_inode_lem, header_bytes-AreBytes}

-- A page that points to a block in the sectors from 11 on.
pub record Points (p : DiskPage) : Type 0 where
  pub magic : p.magic ≡ magic_number
  pub disk : is_disk p.disk ≡ true
  pub sector : (11 ≤ p.next_sector) × (p.next_sector < 2 ^ 15)
  pub range : p.next_sector * 512 + p.next_offset + 256 < 2 ^ 24

-- Where the header of a file stands.
abbrev pub header_place : DiskPage → ℕ
header_place p = p.next_sector * 512 + (p.next_offset + 28)

module _ {S : Type 0} (mc : Machine S) (dr : IsDrive mc.strategy) where
  -- Inode `n` is that of a file, whose header is `h`.
  pub record HasFile (st : Manager S) (n : ℕ) (i : InodeDisk) (h : FileHeader) : Type 0 where
    pub number : n < 128
    pub inode : HasInode mc dr st n i
    pub fits : InodeFits i
    pub points : Points i.page
    pub header : Slice (dr.byte st.drive i.page.disk) (header_place i.page) 48 (header_bytes h)
    pub header_fits : HeaderFits h

  -- The address of the header does not wrap.
  pub header_address : (p : DiskPage) → Points p → add32 p.next_offset 28 ≡ p.next_offset + 28
  header_address p t = omega (arith, t.range)

  pub Quiet-HasFile :
      (st st' : Manager S) (n : ℕ) (i : InodeDisk) (h : FileHeader)
      → Quiet mc dr st st'
      → HasFile st n i h
      → HasFile st' n i h
  Quiet-HasFile st st' n i h q f = record {
    number = f.number;
    inode = Quiet-Slice mc dr st st' ata0 _ 36 _ q (omega (arith, f.number)) f.inode;
    fits = f.fits;
    points = f.points;
    header = Quiet-Slice mc dr st st' i.page.disk _ 48 _ q (omega (arith, f.points.range)) f.header;
    header_fits = f.header_fits;
  }

  read_header_lem :
      (i : InodeDisk) (h old : FileHeader) (st : Manager S)
      → dr.IsGood st.drive
      → Points i.page
      → HeaderFits h
      → Slice (dr.byte st.drive i.page.disk) (header_place i.page) 48 (header_bytes h)
      → let (got, st') = read_header mc i old st in (got ≡ h) × Quiet mc dr st st'
  unfolding read_header
  read_header_lem i h old st g t fits s =
      let p = i.page in
      let (got, q) =
        fetch-Quiet mc dr (header_bytes old) p.disk 48 p.next_sector (p.next_offset + 28) st
          (header_bytes h) g t.disk (t.sector.1) (omega (arith, t.range)) s in
      rw (t.magic, header_address p t) (ap header_of got ∙ header_of-header_bytes h fits, q)

  pub get_file_header_lem :
      (n : ℕ) (i : InodeDisk) (h old : FileHeader) (st : Manager S)
      → dr.IsGood st.drive
      → HasFile st n i h
      → let (got, st') = get_file_header mc n old st in (got ≡ h) × Quiet mc dr st st'
  unfolding get_file_header
  get_file_header_lem n i h old st g f =
      let (e, q) = get_inode_lem mc dr n i st g (omega (arith, f.number)) f.fits f.inode in
      let st1 = (get_inode mc n st).1 in
      let f1 = Quiet-HasFile st st1 n i h q f in
      let (e', q') = read_header_lem i h old st1 q.good f.points f.header_fits f1.header in
      subst (λ j. let r = read_header mc j old st1 in (r.0 ≡ h) × Quiet mc dr st r.1) (sym e)
        (e', Quiet-trans mc dr st st1 _ q q')

  store_header-Stored :
      (i : InodeDisk) (h : FileHeader) (st : Manager S)
      → dr.IsGood st.drive
      → Points i.page
      → HeaderFits h
      → Stored mc dr st i.page.disk (header_place i.page) (header_bytes h) (store_header mc i h st)
  unfolding store_header
  store_header-Stored i h st g t fits =
      let p = i.page in
      rw (t.magic, header_address p t, store_header)
        (put-Stored mc dr p.disk (header_bytes h) p.next_sector (p.next_offset + 28) st g t.disk
          (header_bytes-AreBytes h fits.name_bytes) t.sector.1
          (omega (arith, t.range, length-header_bytes h fits)))

  Stored-HasFile :
      (st st' : Manager S) (n : ℕ) (i : InodeDisk) (h h' : FileHeader)
      → HasFile st n i h
      → HeaderFits h'
      → Stored mc dr st i.page.disk (header_place i.page) (header_bytes h') st'
      → HasFile st' n i h'
  Stored-HasFile st st' n i h h' f fits w = record {
    number = f.number;
    inode =
        Stored-apart mc dr st st' i.page.disk (header_place i.page) (header_bytes h') ata0
          (1 * 512 + n * 36) 36 (inode_bytes i) w (omega (arith, f.number))
          (inr (inl (omega (arith, f.number, f.points.sector.0)))) f.inode;
    fits = f.fits;
    points = f.points;
    header =
        Stored-Slice mc dr st st' i.page.disk (header_place i.page) 48 (header_bytes h')
          (length-header_bytes h' fits) (omega (arith, f.points.range)) w;
    header_fits = fits;
  }

  set_file_header-Stored :
      (n : ℕ) (i : InodeDisk) (h h' : FileHeader) (st : Manager S)
      → dr.IsGood st.drive
      → HasFile st n i h
      → HeaderFits h'
      → Stored mc dr st i.page.disk
          (header_place i.page)
          (header_bytes h')
          (set_file_header mc n h' st)
  unfolding set_file_header
  set_file_header-Stored n i h h' st g f fits =
      let (e, q) = get_inode_lem mc dr n i st g (omega (arith, f.number)) f.fits f.inode in
      let st1 = (get_inode mc n st).1 in
      subst
        (λ j.
          Stored mc dr st i.page.disk (header_place i.page) (header_bytes h')
            (store_header mc j h' st1))
        (sym e)
        (Quiet-Stored mc dr st st1 _ i.page.disk _ (header_bytes h') q
          (store_header-Stored i h' st1 q.good f.points fits))

  -- What a change of the header of file `n` leaves.
  pub record Changed (st : Manager S) (n : ℕ) (i : InodeDisk) (h' : FileHeader) (st' : Manager S)
      : Type 0 where
    pub file : HasFile st' n i h'
    pub good : dr.IsGood st'.drive
    pub row :
        Overwritten
          (dr.byte st.drive)
          (dr.byte st'.drive)
          i.page.disk
          (header_place i.page)
          (header_bytes h')
    pub errno : st'.errno ≡ pos 0

  cleared-HasFile :
      (st : Manager S) (n : ℕ) (i : InodeDisk) (h : FileHeader)
      → HasFile st n i h
      → HasFile (clear_errno mc st) n i h
  cleared-HasFile st n i h f = record {
    number = f.number;
    inode = f.inode;
    fits = f.fits;
    points = f.points;
    header = f.header;
    header_fits = f.header_fits;
  }

  Stored-Changed :
      (st st1 st2 : Manager S) (n : ℕ) (i : InodeDisk) (h h' : FileHeader)
      → Quiet mc dr (clear_errno mc st) st1
      → HasFile st n i h
      → HeaderFits h'
      → Stored mc dr st1 i.page.disk (header_place i.page) (header_bytes h') st2
      → Changed st n i h' st2
  Stored-Changed st st1 st2 n i h h' q f fits w =
      let st0 = clear_errno mc st in
      let w0 = Quiet-Stored mc dr st0 st1 st2 i.page.disk _ (header_bytes h') q w in
      record {
        file = Stored-HasFile st0 st2 n i h h' (cleared-HasFile st n i h f) fits w0;
        good = w0.good;
        row = w0.row;
        errno = w0.errno;
      }

  -- What the three setters of a field of the header have in common.
  pub change_header_lem :
      (f : FileHeader → FileHeader) (n : ℕ) (i : InodeDisk) (h : FileHeader) (st : Manager S)
      → dr.IsGood st.drive
      → HasFile st n i h
      → HeaderFits (f h)
      → let (done, st') = change_header mc f n st in (done ≡ true) × Changed st n i (f h) st'
  unfolding change_header
  change_header_lem f n i h st g file fits =
      let st0 = clear_errno mc st in
      let (e, q) = get_file_header_lem n i h (unset mc) st0 g (cleared-HasFile st n i h file) in
      let st1 = (get_file_header mc n (unset mc) st0).1 in
      let w =
        set_file_header-Stored n i h (f h) st1 q.good
          (Quiet-HasFile st0 st1 n i h q (cleared-HasFile st n i h file)) fits in
      rw q.errno (
        subst (λ g. (true ≡ true) × Changed st n i (f h) (set_file_header mc n (f g) st1)) (sym e)
          (refl, Stored-Changed st st1 _ n i h (f h) q file fits w))

  -- On a file that stands on the disk each of the three setters answers true, for a value of 32 bits:
  -- `diskManager_setFileMode` leaves the header with the new mask, `diskManager_setFileUid` with the
  -- new user and `diskManager_setFileGid` with the new group, the other fields as they were, `errno`
  -- at 0, and no other byte of any disk changed.
  pub set_file_lem :
      (v n : ℕ) (i : InodeDisk) (h : FileHeader) (st : Manager S)
      → dr.IsGood st.drive
      → HasFile st n i h
      → v < 2 ^ 32
      → (let (done, st') = set_file_mode mc n v st in
          (done ≡ true) × Changed st n i (record h { mask = v }) st')
        × (let (done, st') = set_file_uid mc n v st in
            (done ≡ true) × Changed st n i (record h { uid = v }) st')
        × (let (done, st') = set_file_gid mc n v st in
            (done ≡ true) × Changed st n i (record h { gid = v }) st')
  unfolding set_file_mode set_file_uid set_file_gid
  set_file_lem v n i h st g file small =
      let fits = file.header_fits in
      (
        change_header_lem (λ h. record h { mask = v }) n i h st g file
            (ground (arith, fits, small)),
        change_header_lem (λ h. record h { uid = v }) n i h st g file (ground (arith, fits, small)),
        change_header_lem (λ h. record h { gid = v }) n i h st g file (ground (arith, fits, small)),
      )
