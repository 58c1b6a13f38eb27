-- ===== src/Fs/DiskManager/Inodes.antt =====
-- src/fs/diskManager.c: the header of the file system, the inodes, and the header of a file.
use so2c2011tp.Prelude.{
  ℕ, ◌*◌, ◌-◌, Bool, true, false, Option, none, some, List, [], ◌∷◌, ◌++◌, ◌==◌, if◌then◌else◌,
  take, drop, replicate, not,
}
use so2c2011tp.Prelude.Int.{ℤ, pos, negsuc, ◌==ℤ◌}
use so2c2011tp.Driver.Ata.{ata0}
use so2c2011tp.Fs.Strategy.{Machine, Manager, fetch, put, e_out_of_memory, e_corrupted_file}
use so2c2011tp.Fs.Structs.{
  InodeDisk, FileHeader, magic_number, max_name_length, block_size, size_of_page, size_of_header,
  size_of_inode, size_of_fs_header, overhead, add32, u32_bytes, u32_at, inode_bytes, inode_of,
  header_bytes, header_of,
}
use so2c2011tp.Fs.DiskManager.Bitmap.{first_free, mark}

-- `iNode`, in memory.
pub record Inode : Type 0 where
  pub sector : ℕ
  pub offset : ℕ
  pub inode_id : ℕ
  pub uid : ℕ
  pub gid : ℕ
  pub flags : ℕ
  pub length : ℕ
  pub impl : ℕ
  pub mask : ℕ
  pub name : List ℕ

abbrev pub inodes_initial_sector : ℕ
inodes_initial_sector = 1

abbrev pub files_bit_map_sector : ℕ
files_bit_map_sector = 10

abbrev pub file_contents_inital_sector : ℕ
file_contents_inital_sector = 11

-- The bytes of the bitmap of inodes.
abbrev pub inode_map_bytes : ℕ
inode_map_bytes = 504

-- `strcpy` from and to arrays of characters: what is behind the NUL stays.
unfoldable pub strcpy : List ℕ → List ℕ → List ℕ
strcpy [] src = []
strcpy (d ∷ ds) [] = d ∷ ds
strcpy (d ∷ ds) (c ∷ cs) = if c == 0 then 0 ∷ ds else c ∷ strcpy ds cs

-- `_availableMem`
unfoldable pub available_mem : InodeDisk → ℕ
available_mem i =
    if i.blocks == 0
    then 0
    else add32 (block_size - overhead) ((i.blocks - 1) * (block_size - size_of_page))

module _ {S : Type 0} (mc : Machine S) where
  unfoldable pub validate_header : Manager S → Bool × Manager S
  unfolding fetch
  validate_header st =
      let (b, st') = fetch mc (mc.stack size_of_fs_header) ata0 size_of_fs_header 0 0 st in
      (u32_at b 0 == magic_number, st')

  -- The field `maxNodes` is written as the stack has it.
  unfoldable pub write_header : Manager S → Manager S
  unfolding put
  write_header st =
      let header = u32_bytes magic_number ++ drop 4 (mc.stack size_of_fs_header) in
      let st1 = put mc ata0 header 0 0 st in
      let st2 = put mc ata0 (replicate inode_map_bytes 0) 0 size_of_fs_header st1 in
      put mc ata0 (replicate 512 0) files_bit_map_sector 0 st2

  -- `diskManager_nextInode` behind its read of the bitmap.
  unfoldable pub take_inode : List ℕ → Option ℕ → Manager S → ℤ × Manager S
  unfolding put mark
  take_inode block none st = (negsuc 0, record st { errno = e_out_of_memory })
  take_inode block (some k) st = (pos k, put mc ata0 (mark block k) 0 size_of_fs_header st)

  unfoldable pub next_inode : Manager S → ℤ × Manager S
  unfolding fetch first_free take_inode
  next_inode st =
      let (block, st1) =
        fetch mc (mc.stack inode_map_bytes) ata0 inode_map_bytes 0 size_of_fs_header st in
      take_inode block (first_free (inode_map_bytes * 8) 0 block) st1

  -- `_getiNode`
  unfoldable pub get_inode : ℕ → Manager S → InodeDisk × Manager S
  unfolding fetch
  get_inode n st =
      let (b, st') =
        fetch mc (mc.stack size_of_inode) ata0 size_of_inode inodes_initial_sector
          (n * size_of_inode) st in
      (inode_of b, st')

  -- `_setiNode`
  unfoldable pub set_inode : ℕ → InodeDisk → Manager S → Manager S
  unfolding put
  set_inode n i st = put mc ata0 (inode_bytes i) inodes_initial_sector (n * size_of_inode) st

  -- `_getFileheader` behind `_getiNode`; the header is left as it is if the inode is corrupted.
  unfoldable pub read_header : InodeDisk → FileHeader → Manager S → FileHeader × Manager S
  unfolding fetch
  read_header i old st =
      let p = i.page in
      let (b, st') =
        fetch mc (header_bytes old) p.disk size_of_header p.next_sector
          (add32 p.next_offset size_of_page) st in
      if p.magic == magic_number
      then (header_of b, st')
      else (old, record st { errno = e_corrupted_file })

  unfoldable pub get_file_header : ℕ → FileHeader → Manager S → FileHeader × Manager S
  unfolding get_inode read_header
  get_file_header n old st = let (i, st1) = get_inode n st in read_header i old st1

  -- `_setFileheader` behind `_getiNode`
  unfoldable pub store_header : InodeDisk → FileHeader → Manager S → Manager S
  unfolding put
  store_header i h st =
      let p = i.page in
      if p.magic == magic_number
      then put mc p.disk (header_bytes h) p.next_sector (add32 p.next_offset size_of_page) st
      else record st { errno = e_corrupted_file }

  unfoldable pub set_file_header : ℕ → FileHeader → Manager S → Manager S
  unfolding get_inode store_header
  set_file_header n h st = let (i, st1) = get_inode n st in store_header i h st1

  -- A header that is not set yet.
  abbrev pub unset : FileHeader
  unset = header_of (mc.stack size_of_header)

  abbrev pub clear_errno : Manager S → Manager S
  clear_errno st = record st { errno = pos 0 }

  -- The body that the four setters share: the header is read, changed and written back.
  unfoldable pub change_header : (FileHeader → FileHeader) → ℕ → Manager S → Bool × Manager S
  unfolding get_file_header set_file_header
  change_header f n st =
      let (h, st1) = get_file_header n unset (clear_errno st) in
      if st1.errno ==ℤ pos 0 then (true, set_file_header n (f h) st1) else (false, st1)

  unfoldable pub set_file_name : ℕ → List ℕ → Manager S → Manager S
  unfolding change_header
  set_file_name n name st =
      (change_header (λ h. record h { name = take max_name_length name }) n st).1

  unfoldable pub set_file_mode : ℕ → ℕ → Manager S → Bool × Manager S
  unfolding change_header
  set_file_mode n new_mode st = change_header (λ h. record h { mask = new_mode }) n st

  unfoldable pub set_file_uid : ℕ → ℕ → Manager S → Bool × Manager S
  unfolding change_header
  set_file_uid n uid st = change_header (λ h. record h { uid = uid }) n st

  unfoldable pub set_file_gid : ℕ → ℕ → Manager S → Bool × Manager S
  unfolding change_header
  set_file_gid n gid st = change_header (λ h. record h { gid = gid }) n st

  -- `diskManager_getFileName`; `old` is what the caller's buffer holds.
  unfoldable pub get_file_name : ℕ → List ℕ → Manager S → List ℕ × Manager S
  unfolding get_file_header
  get_file_name n old st =
      let (h, st1) = get_file_header n unset (clear_errno st) in
      if st1.errno ==ℤ pos 0 then (h.name, st1) else (old, st1)

  -- `diskManager_size`
  unfoldable pub size_of : ℕ → Manager S → ℕ × Manager S
  unfolding get_inode
  size_of n st = let (i, st1) = get_inode n st in (i.used_bytes, st1)

  -- `diskManager_readInode` behind `_getiNode`
  unfoldable pub load_inode : Inode → ℕ → InodeDisk → Manager S → Inode × Manager S
  unfolding fetch
  load_inode old n i st =
      let p = i.page in
      let (b, st') =
        fetch mc (mc.stack size_of_header) p.disk size_of_header p.next_sector
          (add32 p.next_offset size_of_page) st in
      let h = header_of b in
      let loaded : Inode = record {
        sector = p.next_sector;
        offset = p.next_offset;
        inode_id = n;
        uid = h.uid;
        gid = h.gid;
        flags = h.flags;
        length = i.used_bytes;
        impl = h.impl;
        mask = h.mask;
        name = strcpy old.name h.name;
      } in
      if not (p.magic == magic_number)
      then (old, record st { errno = e_corrupted_file })
      else if not (h.magic == magic_number)
      then (old, record st' { errno = e_corrupted_file })
      else (loaded, st')

  unfoldable pub read_inode : Inode → ℕ → Manager S → Inode × Manager S
  unfolding get_inode load_inode
  read_inode old n st = let (i, st1) = get_inode n st in load_inode old n i st1

  -- `diskManager_writeInode`
  unfoldable pub write_inode : Inode → ℕ → Manager S → Manager S
  unfolding get_file_header set_file_header
  write_inode inode n st =
      let (h, st1) = get_file_header n unset st in
      set_file_header n
        (record h {
          flags = inode.flags;
          impl = inode.impl;
          mask = inode.mask;
          name = strcpy h.name inode.name;
        })
        st1
