-- ===== src/Fs/FileSystem/Clone.antt =====
-- src/fs/fs.c: a file is copied.
use so2c2011tp.Prelude.{
  ℕ, zero, suc, Bool, true, false, ◌&&◌, Option, none, some, List, ◌==◌, if◌then◌else◌,
}
use so2c2011tp.Prelude.Int.{ℤ, pos, negsuc, ◌==ℤ◌}
use so2c2011tp.Fs.Structs.{add32}
use so2c2011tp.Fs.DiskManager.Inodes.{strcpy, write_inode}
use so2c2011tp.Fs.Directory.{removed}
use so2c2011tp.Fs.FileSystem.{
  Step, ◌>>=◌, ◌>>◌, return, run, gets, modify, disk_, set_errno, file_type, fs_directory,
}
use so2c2011tp.Fs.FileSystem.Table.{index_of, entry_of, change_entry}
use so2c2011tp.Fs.FileSystem.Nodes.{FsNode}
use so2c2011tp.Fs.FileSystem.Files.{fs_read, fs_write}
use so2c2011tp.Fs.FileSystem.Folders.{Context, fs_finddir, fs_createdir}

abbrev pub e_file_is_dir : ℤ
e_file_is_dir = negsuc 10

module _ {S : Type 0} (cx : Context S) (null_node : FsNode) (fuel : ℕ) where
  -- The `while` of `fs_clone`, from an offset on; it writes 512 bytes however many were read.
  unfoldable pub copy_loop : ℕ → ℕ → ℕ → ℕ → List ℕ → Step S (Unit {0})
  copy_loop zero from dest offset buffer = λ st. none
  copy_loop (suc k) from dest offset buffer = do
    (read, buffer') ← fs_read cx.machine fuel from offset 512 buffer
    let rest : Step S (Unit {0}) = do
      fs_write cx.machine fuel dest offset 512 buffer'
      copy_loop k from dest (add32 offset read) buffer'
    (if read == 0 then return tt else rest)

  -- `fs_clone` behind `diskManager_writeInode`
  unfoldable pub copy_if : Bool → ℕ → ℕ → Step S (Unit {0})
  copy_if false from dest = return tt
  copy_if true from dest = copy_loop fuel from dest 0 (cx.machine.stack 512)

  -- `fs_clone` for the entry of the copy in the table, if it has one.
  unfoldable pub clone_at : FsNode → FsNode → Option ℕ → Step S (Unit {0})
  clone_at node dest none = return tt
  clone_at node dest (some i) = do
    modify (
        change_entry i
          (λ e. record e { flags = node.flags; impl = node.impl; name = strcpy e.name dest.name }))
    inode ← gets (entry_of i)
    modify (set_errno (pos 0))
    disk_ (write_inode cx.machine inode dest.inode)
    fine ← gets (λ st. st.mgr.errno ==ℤ pos 0)
    copy_if fine node.inode dest.inode

  -- The node that a pointer leads to, which for NULL is read at address 0.
  abbrev pub node_at : Option FsNode → FsNode
  node_at none = null_node
  node_at (some node) = node

  -- `finddir_fs`
  unfoldable pub finddir_fs : Bool → FsNode → List ℕ → Step S (Option FsNode)
  finddir_fs true folder name = fs_finddir cx fuel folder name
  finddir_fs false folder name = return none

  -- `fs_clone` behind `fs_createdir`
  unfoldable pub clone_if : Bool → FsNode → FsNode → List ℕ → Step S (Unit {0})
  clone_if true folder node name = return tt
  clone_if false folder node name = do
    found ← finddir_fs (file_type folder.mask == fs_directory && folder.is_dir) folder name
    let dest = node_at found
    index ← run (index_of cx.machine dest.inode)
    clone_at node dest index

  unfoldable pub clone_unless : Bool → FsNode → FsNode → List ℕ → Step S (Unit {0})
  clone_unless true folder node name = modify (set_errno e_file_is_dir)
  clone_unless false folder node name = do
    created ← fs_createdir cx fuel folder name (file_type node.mask)
    clone_if (created == removed) folder node name

  unfoldable pub fs_clone : FsNode → FsNode → List ℕ → Step S (Unit {0})
  fs_clone folder node name = clone_unless (file_type node.mask == fs_directory) folder node name
