-- ===== src/Fs/FileSystem/Table.antt =====
-- src/fs/fs.c: the table of the inodes that were loaded, and what is changed in it and on the disk.
use Prim.Native.Nat.{bit_and, bit_or}
use so2c2011tp.Prelude.{
  ℕ, ◌+◌, ◌%◌, Bool, Option, none, some, List, [], ◌∷◌, ◌==◌, if◌then◌else◌, set, get_or,
}
use so2c2011tp.Prelude.Int.{ℤ, pos, ◌==ℤ◌}
use so2c2011tp.Fs.Strategy.{Machine, Manager}
use so2c2011tp.Fs.DiskManager.Inodes.{
  Inode, read_inode, clear_errno, set_file_mode, set_file_uid, set_file_gid, size_of,
}
use so2c2011tp.Fs.FileSystem.{FileSystem, max_inodes, no_inode, file_type, to_u32}

-- The loop of `_indexOf`, from index `i` on.
unfoldable pub find_index : List Inode → ℕ → ℕ → Option ℕ
find_index [] inode i = none
find_index (x ∷ xs) inode i =
    let rest = find_index xs inode (i + 1) in if x.inode_id == inode then some i else rest

abbrev pub change_entry : {S : Type 0} → ℕ → (Inode → Inode) → FileSystem S → FileSystem S
change_entry i f st = record st { inodes = set st.inodes i (f (get_or st.inodes i no_inode)) }

abbrev pub entry_of : {S : Type 0} → ℕ → FileSystem S → Inode
entry_of i st = get_or st.inodes i no_inode

module _ {S : Type 0} (mc : Machine S) where
  -- `_loadInode` behind `diskManager_readInode`
  unfoldable pub loaded_inode : FileSystem S → Inode × Manager S → Option ℕ × FileSystem S
  loaded_inode st (got, m) =
      let st' = record st { inodes = set st.inodes st.next_to_free got; mgr = m } in
      if m.errno ==ℤ pos 0
      then (some st.next_to_free, record st' { next_to_free = (st.next_to_free + 1) % max_inodes })
      else (none, st')

  -- `_loadInode`; `none` is the result -1.
  unfoldable pub load_next : ℕ → FileSystem S → Option ℕ × FileSystem S
  unfolding loaded_inode
  load_next inode st =
      loaded_inode st
        (read_inode mc (get_or st.inodes st.next_to_free no_inode) inode (clear_errno mc st.mgr))

  -- `_indexOf` behind its loop
  unfoldable pub hit_or_load : Option ℕ → ℕ → FileSystem S → Option ℕ × FileSystem S
  hit_or_load none inode st = load_next inode st
  hit_or_load (some i) inode st = (some i, st)

  -- `_indexOf`
  unfoldable pub index_of : ℕ → FileSystem S → Option ℕ × FileSystem S
  unfolding find_index hit_or_load
  index_of inode st = hit_or_load (find_index st.inodes inode 0) inode st

  -- What `fs_setFileMode`, `fs_setFileUid` and `fs_setFileGid` share: if the disk manager has changed
  -- the header, so is the entry.
  unfoldable pub change_attribute :
      (ℕ → FileSystem S → (Manager S → Bool × Manager S) × (Inode → Inode))
      → ℕ
      → FileSystem S
      → FileSystem S
  unfolding index_of
  change_attribute f inode st =
      let (index, st1) = index_of inode st in
      elim index [
        | none ↦ st1
        | some i ↦
            (let (g, change) = f i st1 in
              let (done, m) = g st1.mgr in
              let st2 = record st1 { mgr = m } in if done then change_entry i change st2 else st2)
      ]

  -- `fs_setFileMode`: the type of the file stays.
  unfoldable pub fs_set_file_mode : ℕ → ℕ → FileSystem S → FileSystem S
  unfolding change_attribute
  fs_set_file_mode inode mode =
      change_attribute
        (λ i st.
          (let new_mode = bit_or (file_type (entry_of i st).mask) (bit_and mode 0x0777) in
            (set_file_mode mc inode new_mode, λ e. record e { mask = new_mode })))
        inode

  -- `fs_setFileUid`
  unfoldable pub fs_set_file_uid : ℕ → ℤ → FileSystem S → FileSystem S
  unfolding change_attribute
  fs_set_file_uid inode uid =
      change_attribute
        (λ i st. (set_file_uid mc inode (to_u32 uid), λ e. record e { uid = to_u32 uid })) inode

  -- `fs_setFileGid`
  unfoldable pub fs_set_file_gid : ℕ → ℤ → FileSystem S → FileSystem S
  unfolding change_attribute
  fs_set_file_gid inode gid =
      change_attribute
        (λ i st. (set_file_gid mc inode (to_u32 gid), λ e. record e { gid = to_u32 gid })) inode

  -- `fs_size`
  unfoldable pub fs_size : ℕ → FileSystem S → ℕ × FileSystem S
  unfolding index_of
  fs_size inode st =
      let (index, st1) = index_of inode st in
      elim index [
        | none ↦ (let (n, m) = size_of mc inode st1.mgr in (n, record st1 { mgr = m }))
        | some i ↦ ((entry_of i st1).length, st1)
      ]
