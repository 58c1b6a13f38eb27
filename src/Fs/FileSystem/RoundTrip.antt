-- ===== src/Fs/FileSystem/RoundTrip.antt =====
-- Contents written through the table of inodes, and read back.
use so2c2011tp.Prelude.{
  ℕ, suc, ◌+◌, ◌-◌, ◌^◌, ◌≤◌, ◌<◌, ◌≡◌, refl, ap, ◌∙◌, inl, inr, max, some, List, [], ◌∷◌, arith,
  length, ◌==◌, ltb, set, AreBytes, Bool-cases, get_or-set_self, subst, false,
}
use so2c2011tp.Prelude.Int.{pos}
use so2c2011tp.Fs.Strategy.{Machine, Manager}
use so2c2011tp.Fs.Strategy.Laws.{IsDrive}
use so2c2011tp.Fs.Structs.{FileHeader, add32}
use so2c2011tp.Fs.DiskManager.Inodes.{Inode}
use so2c2011tp.Fs.DiskManager.Transfer.{read_contents, write_contents}
use so2c2011tp.Fs.DiskManager.SmallFile.{IsSmallFile}
use so2c2011tp.Fs.DiskManager.ReadWrite.{read_contents-write_contents}
use so2c2011tp.Fs.FileSystem.{FileSystem, no_inode}
use so2c2011tp.Fs.FileSystem.Table.{find_index, hit_or_load, index_of, entry_of}
use so2c2011tp.Fs.FileSystem.Files.{
  cut_size, fs_read, fs_write, read_entry, after_read, write_entry, after_store, lengthened,
}
use so2c2011tp.Fs.FileSystem.Cached.{find_index_lem, find_index_at}

-- The entry that was found is still the first when its inode number is kept.
find_index-set :
    (xs : List Inode) (x : Inode) (inode k i : ℕ)
    → x.inode_id ≡ inode
    → find_index xs inode k ≡ some i
    → find_index (set xs (i - k) x) inode k ≡ some i
unfolding find_index
find_index-set [] x inode k i id e = ground (arith, e)
find_index-set (y ∷ ys) x inode k i id e = elim (Bool-cases (y.inode_id == inode)) [
  | inl same ↦
      (let at : i ≡ k = ground (arith, e, same) in
        ap (λ n. find_index (set (y ∷ ys) n x) inode k) {x = i - k} {y = 0} (omega (arith, at))
        ∙ ground (arith, id, at))
  | inr other ↦
      (let found : find_index ys inode (k + 1) ≡ some i = ground (arith, e, other) in
        let (lo, _, _) = find_index_lem ys inode (k + 1) i found in
        ap (λ n. find_index (set (y ∷ ys) n x) inode k) {x = i - k} {y = suc (i - (k + 1))}
          (omega arith)
        ∙ ground (arith, other, find_index-set ys x inode (k + 1) i id found))
]

-- A read inside the file is not cut down.
whole_lem : (len o size : ℕ) → o + size ≤ len → o + size < 2 ^ 32 → cut_size len o size ≡ size
unfolding cut_size
whole_lem len o size h k = ground arith

module _ {S : Type 0} (mc : Machine S) where
  index_of_hit :
      (inode i : ℕ) (st : FileSystem S)
      → find_index st.inodes inode 0 ≡ some i
      → index_of mc inode st ≡ (some i, st)
  unfolding index_of hit_or_load
  index_of_hit inode i st found = rw found refl

  fs_write_hit :
      (fuel inode i offset size : ℕ) (buffer : List ℕ) (st : FileSystem S) {m : Manager S}
      → find_index st.inodes inode 0 ≡ some i
      → write_contents mc fuel inode buffer size offset st.mgr ≡ some (pos 0, m)
      → fs_write mc fuel inode offset size buffer st
        ≡ some (size, record (lengthened mc i offset size st) { mgr = m })
  unfolding fs_write write_entry after_store
  fs_write_hit fuel inode i offset size buffer st found wrote =
      ap (write_entry mc fuel inode offset size buffer) (index_of_hit inode i st found)
      ∙ ap (after_store mc size (lengthened mc i offset size st)) wrote

  fs_read_hit :
      (fuel inode i offset size : ℕ) (buffer msg : List ℕ) (st : FileSystem S) {m : Manager S}
      → find_index st.inodes inode 0 ≡ some i
      → ltb (entry_of i st).length offset ≡ false
      → cut_size (entry_of i st).length offset size ≡ size
      → read_contents mc fuel inode buffer size offset st.mgr ≡ some (pos 0, msg, m)
      → fs_read mc fuel inode offset size buffer st ≡ some ((size, msg), record st { mgr = m })
  unfolding fs_read read_entry after_read
  fs_read_hit fuel inode i offset size buffer msg st {m} found inside whole got =
      ap (read_entry mc fuel inode offset size buffer) (index_of_hit inode i st found)
      ∙ rw inside (
          ap (λ n. after_read mc n st (read_contents mc fuel inode buffer n offset st.mgr)) whole
          ∙ ap (after_read mc size st) got)

module _ {S : Type 0} (mc : Machine S) (dr : IsDrive mc.strategy) where
  -- For an inode that the table holds, of a file in one block: what is written, at least one byte, from
  -- inside the content of the file or its end on and up to byte 180, is read back through the table
  -- into a buffer of its length, whatever length the table had, and both calls return its number of
  -- bytes.
  pub fs_read-fs_write :
      (fuel n i k o : ℕ) (h : FileHeader) (content msg buffer : List ℕ) (st : FileSystem S)
      → find_index st.inodes n 0 ≡ some i
      → IsSmallFile mc dr st.mgr n k h content
      → o ≤ length content
      → 1 ≤ length msg
      → o + length msg ≤ 180
      → AreBytes msg
      → length buffer ≡ length msg
      → (st1 st2 : FileSystem S) × (fs_write mc (suc fuel) n o (length msg) msg st
          ≡ some (length msg, st1))
        × (fs_read mc (suc fuel) n o (length msg) buffer st1 ≡ some ((length msg, msg), st2))
  fs_read-fs_write fuel n i k o h content msg buffer st found f at_most some_bytes fit b e =
      let (m1, m2, wrote, got) =
        read_contents-write_contents mc dr fuel n k o h content msg buffer st.mgr f at_most
          some_bytes fit b e in
      let old = entry_of i st in
      let grown = record old { length = max old.length (add32 o (length msg)) } in
      let st1 = record (lengthened mc i o (length msg) st) { mgr = m1 } in
      let (below, id) = find_index_at st.inodes n i found in
      let new : (entry_of i st1).length ≡ max old.length (o + length msg) =
        ap (λ x. x.length) (get_or-set_self st.inodes i grown no_inode below)
        ∙ ap (max old.length) (omega arith) in
      (
        st1,
        record st1 { mgr = m2 },
        fs_write_hit mc (suc fuel) n i o (length msg) msg st found wrote,
        fs_read_hit mc (suc fuel) n i o (length msg) buffer msg st1
            (ap (λ j. find_index (set st.inodes j grown) n 0) {x = i} {y = i - 0} (omega arith)
              ∙ find_index-set st.inodes grown n 0 i id found)
            (rw new (ground arith))
            (rw new (
              whole_lem (max old.length (o + length msg)) o (length msg) (omega arith)
                (omega arith)))
            (subst (λ l. read_contents mc (suc fuel) n buffer l o m1 ≡ some (pos 0, msg, m2)) e
              got),
      )
