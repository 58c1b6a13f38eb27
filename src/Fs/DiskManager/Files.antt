-- ===== src/Fs/DiskManager/Files.antt =====
-- src/fs/diskManager.c: a file is made, with one block and its header, and deleted.
use so2c2011tp.Prelude.{ℕ, Option, none, some, List}
use so2c2011tp.Prelude.Int.{pos, negsuc}
use so2c2011tp.Driver.Ata.{ata0}
use so2c2011tp.Fs.Strategy.{Machine, Manager, fetch, put}
use so2c2011tp.Fs.Structs.{
  FileHeader, magic_number, size_of_page, size_of_fs_header, add32, page_at, header_bytes,
}
use so2c2011tp.Fs.DiskManager.Bitmap.{unmark}
use so2c2011tp.Fs.DiskManager.Inodes.{
  Inode, get_inode, set_inode, set_file_header, unset, strcpy, inode_map_bytes,
  file_contents_inital_sector,
}
use so2c2011tp.Fs.DiskManager.Blocks.{reserve_memory, free_memory}

module _ {S : Type 0} (mc : Machine S) where
  -- The header that `diskManager_createInode` writes.
  abbrev pub created_header : Inode → List ℕ → FileHeader
  created_header inode name = record {
    magic = magic_number;
    name = strcpy (unset mc).name name;
    mask = inode.mask;
    uid = inode.uid;
    gid = inode.gid;
    flags = inode.flags;
    impl = inode.impl;
  }

  -- `diskManager_createInode`
  unfoldable pub create_inode : ℕ → Inode → ℕ → List ℕ → Manager S → Option (Manager S)
  create_inode fuel inode n name st =
      elim (reserve_memory mc fuel (page_at (mc.stack size_of_page) 0) 1 file_contents_inital_sector
        0 st) [
          | none ↦ none
          | some (status, page, st1) ↦ (elim status [
            | negsuc _ ↦ some st1
            | pos _ ↦
                (let st2 =
                    set_inode mc n (record { page = page; blocks = 1; used_bytes = 0 }) st1 in
                  some (
                    put mc page.disk (header_bytes (created_header inode name)) page.next_sector
                      (add32 page.next_offset size_of_page) st2))
          ])
        ]

  -- `diskManager_delete`; only the magic number of the header that it writes is set.
  unfoldable pub delete : ℕ → ℕ → Manager S → Option (Manager S)
  delete fuel n st =
      let (i, st1) = get_inode mc n st in
      elim (free_memory mc fuel i.page st1) [
        | none ↦ none
        | some st2 ↦
            (let st3 = set_file_header mc n (record (unset mc) { magic = 0 }) st2 in
              let (inodes, st4) =
                fetch mc (mc.stack inode_map_bytes) ata0 inode_map_bytes 0 size_of_fs_header st3 in
              some (put mc ata0 (unmark inodes n) 0 size_of_fs_header st4))
      ]
