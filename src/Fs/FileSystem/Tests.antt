-- ===== src/Fs/FileSystem/Tests.antt =====
-- The file system over the disk of the disk manager's tests.
use so2c2011tp.Prelude.{◌≡◌, refl, some, List, [], ◌∷◌, arith, replicate, false}
use so2c2011tp.Fs.DiskCache.{Cache}
use so2c2011tp.Fs.Strategy.Instances.{lru_cache-IsDrive}
use so2c2011tp.Fs.DiskManager.Inodes.{Inode}
use so2c2011tp.Fs.DiskManager.Tests.{machine, file_header, first_block, three_bytes, fresh, written}
use so2c2011tp.Fs.FileSystem.{FileSystem, no_inode}
use so2c2011tp.Fs.FileSystem.Table.{find_index}
use so2c2011tp.Fs.FileSystem.Nodes.{FsNode, Descriptor, open_in}
use so2c2011tp.Fs.FileSystem.Files.{fs_read, fs_write}
use so2c2011tp.Fs.FileSystem.RoundTrip.{fs_read-fs_write}
use so2c2011tp.Fs.FileSystem.Open.{Opened, no_descriptor, open_in_lem}

-- The third entry of the table is that of file 0.
abbrev table : List Inode
table =
    let other : Inode = record no_inode { inode_id = 9 } in
    other ∷ other ∷ record no_inode { length = 3 } ∷ replicate 12 other

abbrev started : FileSystem Cache
started = record { inodes = table; next_to_free = 3; mgr = fresh }

abbrev with_file : FileSystem Cache
with_file = record { inodes = table; next_to_free = 3; mgr = written.0 }

third : find_index table 0 0 ≡ some 2
unfolding find_index
third = refl

fs_read-fs_write_example :
    (st1 st2 : FileSystem Cache) × (fs_write machine 1 0 3 3 three_bytes with_file ≡ some (3, st1))
    × (fs_read machine 1 0 3 3 (0 ∷ 0 ∷ 0 ∷ []) st1 ≡ some ((3, three_bytes), st2))
fs_read-fs_write_example =
    fs_read-fs_write machine lru_cache-IsDrive 0 0 2 first_block 3 file_header three_bytes
      three_bytes (0 ∷ 0 ∷ 0 ∷ []) with_file third written.2 (omega arith) (omega arith)
      (omega arith) (omega arith) refl

abbrev node : FsNode
node = record {
  name = [];
  mask = 0x8644;
  uid = 0;
  gid = 0;
  flags = 1;
  inode = 4;
  impl = 0;
  is_fifo = false;
  is_dir = false;
}

abbrev descriptors : List Descriptor
descriptors = record no_descriptor { mask = 0x8000 } ∷ replicate 9 no_descriptor

open_in_lem_example : Opened node descriptors (open_in node descriptors)
open_in_lem_example = open_in_lem node descriptors
