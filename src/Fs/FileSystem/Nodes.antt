-- ===== src/Fs/FileSystem/Nodes.antt =====
-- src/fs/fs.c: the nodes by which the rest of the kernel sees files, and the descriptors of a process.
use so2c2011tp.Prelude.{
  ℕ, Bool, true, false, Option, none, some, List, [], ◌∷◌, ◌==◌, if◌then◌else◌, take,
}
use so2c2011tp.Prelude.Int.{ℤ, negsuc}
use so2c2011tp.Access.Permission.{Node}
use so2c2011tp.Fs.Strategy.{Machine, Manager}
use so2c2011tp.Fs.Structs.{max_name_length}
use so2c2011tp.Fs.DiskManager.Inodes.{Inode}
use so2c2011tp.Fs.FileSystem.{FileSystem, file_type, fs_pipe, fs_directory, to_int}
use so2c2011tp.Fs.FileSystem.Table.{index_of, entry_of}

-- `fs_node_t`. The pointers `read` and `write` are those of a pipe or of a file, and the four of a
-- directory are set or NULL together.
pub record FsNode : Type 0 where
  pub name : List ℕ
  pub mask : ℕ
  pub uid : ℕ
  pub gid : ℕ
  pub flags : ℕ
  pub inode : ℕ
  pub impl : ℕ
  pub is_fifo : Bool
  pub is_dir : Bool

-- What permissions are asked of.
abbrev pub access_node : FsNode → Node
access_node node = record { mask = node.mask; uid = to_int node.uid; gid = to_int node.gid }

-- The fields of the node that `fs_getFsNode` sets.
unfoldable pub node_of : Inode → ℕ → FsNode
node_of i n = record {
  name = take max_name_length i.name;
  mask = i.mask;
  uid = i.uid;
  gid = i.gid;
  flags = i.flags;
  inode = n;
  impl = i.impl;
  is_fifo = file_type i.mask == fs_pipe;
  is_dir = file_type i.mask == fs_directory;
}

-- `fs_getFsNode`, where the node was `old`.
unfoldable pub fs_get_fs_node :
    {S : Type 0} → Machine S → FsNode → ℕ → FileSystem S → FsNode × FileSystem S
unfolding index_of
fs_get_fs_node mc old n st =
    let (index, st1) = index_of mc n st in
    elim index [ none ↦ (old, st1) | some i ↦ (node_of (entry_of i st1) n, st1) ]

-- `file_descriptor_entry`; the fields that fs.c does not use are left out.
pub record Descriptor : Type 0 where
  pub mask : ℕ
  pub count : ℕ
  pub inode : ℕ
  pub mode : ℕ

abbrev pub e_max_fd_reached : ℤ
e_max_fd_reached = negsuc 9

-- The loop of `fs_open`: the first free descriptor is taken.
unfoldable pub open_in : FsNode → List Descriptor → Bool × List Descriptor
open_in node [] = (false, [])
open_in node (d ∷ ds) =
    let (opened, rest) = open_in node ds in
    if d.mask == 0
    then (
      true,
      record { mask = file_type node.mask; count = 1; inode = node.inode; mode = node.flags } ∷ ds,
    )
    else (opened, d ∷ rest)

-- `fs_open`; the descriptors are those of the current process, if there is one.
unfoldable pub fs_open :
    {S : Type 0}
    → FsNode
    → Option (List Descriptor)
    → Manager S
    → Option (List Descriptor) × Manager S
fs_open node none m = (none, m)
fs_open node (some ds) m =
    let (opened, ds') = open_in node ds in
    (some ds', if opened then m else record m { errno = e_max_fd_reached })

-- `fs_close`
unfoldable pub fs_close : FsNode → List Descriptor → List Descriptor
fs_close node [] = []
fs_close node (d ∷ ds) =
    (if d.inode == node.inode then record d { mask = 0 } else d) ∷ fs_close node ds
