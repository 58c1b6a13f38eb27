-- ===== src/Fs/FileSystem/Folders.antt =====
-- src/fs/fs.c: directories, whose entries stand in their contents, and the making of a file system.
use Prim.Native.Nat.{bit_or}
use so2c2011tp.Prelude.{
  ℕ, ◌+◌, ◌*◌, Bool, true, false, Option, none, some, List, [], ◌∷◌, ◌++◌, ◌==◌, if◌then◌else◌,
  take, length,
}
use so2c2011tp.Prelude.Int.{ℤ, negsuc}
use so2c2011tp.Access.State.{Access, NullPage, e_access, e_file_exists}
use so2c2011tp.Access.Session.{session_get_euid, session_get_egid}
use so2c2011tp.Access.Permission.{permission_file_has_access}
use so2c2011tp.Fs.Strategy.{Machine, e_invalid_arg}
use so2c2011tp.Fs.Structs.{max_name_length, u32_bytes}
use so2c2011tp.Fs.DiskManager.Inodes.{
  Inode, strcpy, write_header, next_inode, size_of, get_file_name,
}
use so2c2011tp.Fs.DiskManager.Transfer.{read_contents, write_contents}
use so2c2011tp.Fs.DiskManager.Files.{create_inode, delete}
use so2c2011tp.Fs.Directory.{
  removed, size_of_entry, text_of, find_entry, entry_at, find_inode, append_entry,
}
use so2c2011tp.Fs.FileSystem.{
  Step, ◌>>=◌, ◌>>◌, return, run, gets, modify, disk, disk_, loop, loop_, set_errno, file_type,
  fs_directory, def_perm, to_u32,
}
use so2c2011tp.Fs.FileSystem.Table.{index_of, entry_of, change_entry, fs_set_file_mode}
use so2c2011tp.Fs.FileSystem.Nodes.{FsNode, access_node, fs_get_fs_node}

abbrev pub e_file_not_exists : ℤ
e_file_not_exists = negsuc 7

-- What fs.c reaches: the disk manager, the users, and the node that `kmalloc` returns or that stands on
-- the stack, whose fields are not set.
pub record Context (S : Type 0) : Type 0 where
  pub machine : Machine S
  pub null : NullPage
  pub access : Access
  pub fresh : FsNode

module _ {S : Type 0} (cx : Context S) (fuel : ℕ) where
  -- `diskManager_readContents` of a whole directory into an array on the stack.
  unfoldable pub contents_of : ℕ → ℕ → Step S (List ℕ)
  contents_of inode len = do
    let mc = cx.machine
    (status, contents) ← loop (λ m. elim (read_contents mc fuel inode (mc.stack len) len 0 m) [
      | none ↦ none
      | some (s, c, m') ↦ some ((s, c), m')
    ])
    return contents

  unfoldable pub store_contents : ℕ → List ℕ → ℕ → ℕ → Step S (Unit {0})
  store_contents inode contents len offset = do
    status ← loop (write_contents cx.machine fuel inode contents len offset)
    return tt

  -- The node of an inode that was found, if one was.
  unfoldable pub node_found : Option ℕ → Step S (Option FsNode)
  node_found none = return none
  node_found (some n) = do node ← run (fs_get_fs_node cx.machine cx.fresh n); return (some node)

  -- `fs_finddir`
  unfoldable pub fs_finddir : FsNode → List ℕ → Step S (Option FsNode)
  fs_finddir node name = do
    len ← disk (size_of cx.machine node.inode)
    contents ← contents_of node.inode len
    node_found (find_entry (length contents) contents (text_of name))

  -- `fs_readdir`
  unfoldable pub fs_readdir : FsNode → ℕ → Step S (Option FsNode)
  fs_readdir node index = do
    len ← disk (size_of cx.machine node.inode)
    contents ← contents_of node.inode len
    node_found (entry_at contents index)

  -- `_appendFile` behind its checks, for the entry `i` of the table.
  unfoldable pub append_to : ℕ → ℕ → ℕ → List ℕ → Step S (Unit {0})
  append_to dir i file file_name = do
    len ← disk (size_of cx.machine dir)
    contents ← contents_of dir len
    let (again, contents') =
        append_entry (length contents) contents (u32_bytes file ++ take max_name_length file_name)
    modify (λ st.
        if again then st else change_entry i (λ e. record e { length = len + size_of_entry }) st)
    store_contents dir contents' (if again then len else len + size_of_entry) 0

  unfoldable pub append_if : Bool → ℕ → ℕ → ℕ → List ℕ → Step S (Unit {0})
  append_if true dir i file file_name = append_to dir i file file_name
  append_if false dir i file file_name = modify (set_errno e_invalid_arg)

  -- The name for the new entry: that of the file if none was given.
  unfoldable pub name_for : ℕ → Option (List ℕ) → Step S (List ℕ)
  name_for file none = disk (get_file_name cx.machine file (cx.machine.stack max_name_length))
  name_for file (some name) = return (strcpy (cx.machine.stack max_name_length) name)

  -- `_appendFile` for the entry of the table that `_indexOf` gave.
  unfoldable pub append_at : ℕ → ℕ → Option (List ℕ) → Option ℕ → Step S (Unit {0})
  append_at dir file name none = modify (set_errno e_access)
  append_at dir file name (some i) = do
    file_name ← name_for file name
    mask ← gets (λ st. (entry_of i st).mask)
    append_if (file_type mask == fs_directory) dir i file file_name

  unfoldable pub append_file : ℕ → ℕ → Option (List ℕ) → Step S (Unit {0})
  append_file dir file name = do
    index ← run (index_of cx.machine dir)
    append_at dir file name index

  -- `_initInode`: the entry of the table that has the number of the inode is set, if there is one.
  unfoldable pub init_inode : ℕ → List ℕ → ℕ → Step S (Unit {0})
  init_inode n name mask = do
    old ← gets (entry_of n)
    let inode : Inode = record old {
      mask = mask;
      flags = 0;
      uid = to_u32 (session_get_euid cx.access);
      gid = to_u32 (session_get_egid cx.access);
      impl = 0;
      length = 0;
      inode_id = n;
      name = strcpy old.name name;
    }
    modify (change_entry n (λ e. inode))
    loop_ (create_inode cx.machine fuel inode n name)

  -- `_initInode_dir`
  unfoldable pub init_inode_dir : ℕ → List ℕ → ℕ → Step S (Unit {0})
  init_inode_dir n name parent = do
    init_inode n name (bit_or fs_directory def_perm)
    append_file n 0 (some (92 ∷ 0 ∷ []))
    append_file n n (some (46 ∷ 0 ∷ []))
    append_file n parent (some (46 ∷ 46 ∷ 0 ∷ []))

  unfoldable pub init_either : Bool → ℕ → List ℕ → ℕ → ℕ → Step S (Unit {0})
  init_either true n name type parent = init_inode_dir n name parent
  init_either false n name type parent = init_inode n name (bit_or type def_perm)

  -- `fs_createdir` behind its checks.
  unfoldable pub create_in : FsNode → List ℕ → ℕ → Step S ℕ
  create_in node name type = do
    next ← disk (next_inode cx.machine)
    let inode = to_u32 next
    init_either (type == fs_directory) inode name type node.inode
    append_file node.inode inode none
    return inode

  -- `fs_createdir`, where the name was found or not.
  unfoldable pub create_unless : Option FsNode → FsNode → List ℕ → ℕ → Step S ℕ
  create_unless (some _) node name type = do modify (set_errno e_file_exists); return removed
  create_unless none node name type = create_in node name type

  unfoldable pub fs_createdir : FsNode → List ℕ → ℕ → Step S ℕ
  fs_createdir node name type =
      if permission_file_has_access cx.null cx.access (access_node node) 2
      then (do found ← fs_finddir node name; create_unless found node name type)
      else (do modify (set_errno e_access); return removed)

  -- `fs_removedir` with the place of the entry, or none.
  unfoldable pub remove_at : FsNode → ℕ → Option ℕ → Step S ℕ
  remove_at node inode none = return (to_u32 e_file_not_exists)
  remove_at node inode (some offset) = do
    store_contents node.inode (u32_bytes removed) 4 offset
    loop_ (delete cx.machine fuel inode)
    return 0

  unfoldable pub remove_from : FsNode → ℕ → Option ℕ → Step S ℕ
  remove_from node inode none = return (to_u32 e_access)
  remove_from node inode (some i) = do
    len ← gets (λ st. (entry_of i st).length)
    contents ← contents_of node.inode len
    remove_at node inode (find_inode (length contents) contents (3 * size_of_entry) inode)

  unfoldable pub fs_removedir : FsNode → ℕ → Step S ℕ
  fs_removedir node inode = do
    index ← run (index_of cx.machine node.inode)
    remove_from node inode index

  -- `fs_create`
  unfoldable pub fs_create : Step S (Unit {0})
  fs_create = do
    disk_ (write_header cx.machine)
    next ← disk (next_inode cx.machine)
    let root = to_u32 next
    init_inode_dir root (47 ∷ 0 ∷ []) root
    modify (fs_set_file_mode cx.machine root 0x777)
    node ← run (fs_get_fs_node cx.machine cx.fresh 0)
    fs_createdir node (100 ∷ 101 ∷ 118 ∷ 0 ∷ []) fs_directory
    fs_createdir node (104 ∷ 111 ∷ 109 ∷ 101 ∷ 0 ∷ []) fs_directory
    fs_createdir node (101 ∷ 116 ∷ 99 ∷ 0 ∷ []) fs_directory
    return tt
