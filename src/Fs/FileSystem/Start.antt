-- ===== src/Fs/FileSystem/Start.antt =====
-- src/fs/fs.c: the start of the file system.
use so2c2011tp.Prelude.{map}
use so2c2011tp.Fs.DiskManager.Inodes.{Inode, validate_header}
use so2c2011tp.Fs.Directory.{removed}
use so2c2011tp.Fs.FileSystem.{FileSystem, Step, ◌>>=◌, ◌>>◌, modify, disk, return}
use so2c2011tp.Fs.FileSystem.Folders.{Context, fs_create}
use so2c2011tp.Prelude.{ℕ, Bool, true, false}

module _ {S : Type 0} (cx : Context S) (fuel : ℕ) where
  abbrev free_inode : Inode → Inode
  free_inode i = record i { inode_id = removed; length = 0 }

  -- Every entry of the table is marked as free.
  unfoldable pub clear_inodes : FileSystem S → FileSystem S
  clear_inodes st = record st { inodes = map free_inode st.inodes }

  unfoldable pub create_unless_valid : Bool → Step S (Unit {0})
  create_unless_valid true = return tt
  create_unless_valid false = fs_create cx fuel

  -- `fs_init`; the cache and the pipes start on their own.
  unfoldable pub fs_init : Step S (Unit {0})
  fs_init = do
    modify clear_inodes
    valid ← disk (validate_header cx.machine)
    create_unless_valid valid
