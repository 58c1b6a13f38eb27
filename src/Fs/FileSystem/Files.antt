-- ===== src/Fs/FileSystem/Files.antt =====
-- src/fs/fs.c: the contents of a file, read and written.
use so2c2011tp.Prelude.Int.{ℤ}
use so2c2011tp.Prelude.{ℕ, max, Option, none, some, List, ltb, if◌then◌else◌}
use so2c2011tp.Fs.Strategy.{Machine, Manager}
use so2c2011tp.Fs.Structs.{add32, sub32}
use so2c2011tp.Fs.DiskManager.Transfer.{read_contents, write_contents}
use so2c2011tp.Fs.FileSystem.{FileSystem, Step}
use so2c2011tp.Fs.FileSystem.Table.{index_of, entry_of, change_entry}

-- How many bytes of a file of a length a read is cut down to.
unfoldable pub cut_size : ℕ → ℕ → ℕ → ℕ
cut_size length offset size = if ltb length (add32 offset size) then sub32 length offset else size

module _ {S : Type 0} (mc : Machine S) where
  -- `fs_read` behind `diskManager_readContents`: the bytes asked for are the result, and the buffer.
  unfoldable pub after_read :
      ℕ → FileSystem S → Option (ℤ × List ℕ × Manager S) → Option ((ℕ × List ℕ) × FileSystem S)
  after_read n st none = none
  after_read n st (some (_, buffer, m)) = some ((n, buffer), record st { mgr = m })

  -- `fs_read` with the answer of `_indexOf`.
  unfoldable pub read_entry :
      ℕ → ℕ → ℕ → ℕ → List ℕ → Option ℕ × FileSystem S → Option ((ℕ × List ℕ) × FileSystem S)
  unfolding after_read
  read_entry fuel inode offset size buffer (none, st) = some ((0, buffer), st)
  read_entry fuel inode offset size buffer (some i, st) =
      let len = (entry_of i st).length in
      let n = cut_size len offset size in
      if ltb len offset
      then some ((0, buffer), st)
      else after_read n st (read_contents mc fuel inode buffer n offset st.mgr)

  -- `fs_read` of the node of an inode.
  unfoldable pub fs_read : ℕ → ℕ → ℕ → ℕ → List ℕ → Step S (ℕ × List ℕ)
  unfolding read_entry
  fs_read fuel inode offset size buffer st =
      read_entry fuel inode offset size buffer (index_of mc inode st)

  -- The entry of the table after a write.
  abbrev pub lengthened : ℕ → ℕ → ℕ → FileSystem S → FileSystem S
  lengthened i offset size =
      change_entry i (λ e. record e { length = max e.length (add32 offset size) })

  -- `fs_write` behind `diskManager_writeContents`
  unfoldable pub after_store : ℕ → FileSystem S → Option (ℤ × Manager S) → Option (ℕ × FileSystem S)
  after_store size st none = none
  after_store size st (some (_, m)) = some (size, record st { mgr = m })

  -- `fs_write` with the answer of `_indexOf`.
  unfoldable pub write_entry :
      ℕ → ℕ → ℕ → ℕ → List ℕ → Option ℕ × FileSystem S → Option (ℕ × FileSystem S)
  unfolding after_store
  write_entry fuel inode offset size buffer (none, st) = some (0, st)
  write_entry fuel inode offset size buffer (some i, st) =
      after_store size (lengthened i offset size st)
        (write_contents mc fuel inode buffer size offset st.mgr)

  unfoldable pub fs_write : ℕ → ℕ → ℕ → ℕ → List ℕ → Step S ℕ
  unfolding write_entry
  fs_write fuel inode offset size buffer st =
      write_entry fuel inode offset size buffer (index_of mc inode st)
