-- ===== src/Fs/Directory.antt =====
-- src/fs/fs.c: the contents of a directory, entries of an inode number and a name of 24 bytes, as the
-- loops of `fs_finddir`, `fs_readdir`, `fs_removedir` and `_appendFile` read and change them. A loop
-- recurses on a number of rounds; the length of the contents is enough, since each passes 28 bytes.
pub mod Laws
pub mod Listing
pub mod Removal
mod Tests
use so2c2011tp.Prelude.{
  ℕ, zero, suc, ◌+◌, ◌-◌, ◌^◌, Bool, true, false, not, ◌&&◌, Option, none, some, List, [], ◌∷◌,
  ◌++◌, length, ◌==◌, ltb, leb, if◌then◌else◌, take, drop, get_or,
}
use so2c2011tp.Text.{Text, equal_texts}
use so2c2011tp.Fs.Structs.{max_name_length, sub32, u32_at, u32_bytes}

-- `-1` as an inode number: the entry was removed.
abbrev pub removed : ℕ
removed = 2 ^ 32 - 1

abbrev pub size_of_entry : ℕ
size_of_entry = 4 + max_name_length

-- The string that starts a buffer.
unfoldable pub text_of : List ℕ → Text
text_of [] = []
text_of (c ∷ cs) = if c == 0 then [] else c ∷ text_of cs

-- The `while` of `fs_finddir`; `contents` is what is left from `offset` on.
unfoldable pub find_entry : ℕ → List ℕ → Text → Option ℕ
find_entry zero contents name = none
find_entry (suc n) contents name =
    let inode = u32_at contents 0 in
    let rest = find_entry n (drop size_of_entry contents) name in
    if length contents == 0
    then none
    else if not (inode == removed) && equal_texts name (text_of (drop 4 contents))
    then some inode
    else rest

-- The `while` of `fs_readdir`, with its variables `i` and `inodeNumber` in the end.
unfoldable pub read_entries : ℕ → List ℕ → ℕ → ℕ → ℕ → ℕ × ℕ
read_entries zero contents index i inode = (i, inode)
read_entries (suc n) contents index i inode =
    let next = u32_at contents 0 in
    let rest =
      read_entries n (drop size_of_entry contents) index (if next == removed then i else i + 1)
        next in
    if leb i index && not (length contents == 0) then rest else (i, inode)

-- `fs_readdir` up to the node: the inode number of the entry with an index.
unfoldable pub entry_at : List ℕ → ℕ → Option ℕ
unfolding read_entries
entry_at contents index =
    let (i, inode) = read_entries (length contents) (drop size_of_entry contents) index 0 removed in
    if sub32 i 1 == index then some inode else none

-- The `while` of `fs_removedir` from `offset` on: where the entry of an inode is.
unfoldable pub find_inode : ℕ → List ℕ → ℕ → ℕ → Option ℕ
find_inode zero contents offset inode = none
find_inode (suc n) contents offset inode =
    let rest = find_inode n contents (offset + size_of_entry) inode in
    if not (ltb offset (length contents))
    then none
    else if u32_at contents offset == inode
    then some offset
    else rest

-- `_appendFile` on the contents of the directory: whether an entry that was removed is used again, and
-- the contents that are written. An entry is taken for removed by its first byte, a signed `char`.
unfoldable pub append_entry : ℕ → List ℕ → List ℕ → Bool × List ℕ
append_entry zero contents entry = (false, entry)
append_entry (suc n) contents entry =
    let (again, rest) = append_entry n (drop size_of_entry contents) entry in
    if length contents == 0
    then (false, entry)
    else if get_or contents 0 0 == 255
    then (true, entry ++ drop size_of_entry contents)
    else (again, take size_of_entry contents ++ rest)
