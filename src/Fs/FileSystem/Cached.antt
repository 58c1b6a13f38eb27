-- ===== src/Fs/FileSystem/Cached.antt =====
-- `_indexOf`: the entry of the table for an inode, which was there or is loaded.
use so2c2011tp.Prelude.{
  ℕ, suc, if◌then◌else◌, ◌+◌, ◌-◌, ◌≤◌, ◌<◌, ◌≡◌, ◌≢◌, ap, ◌∙◌, inl, inr, Option, none, some, List,
  [], ◌∷◌, arith, length, ◌==◌, get_or, Bool-cases, ==_iff,
}
use so2c2011tp.Prelude.Int.{pos}
use so2c2011tp.Fs.Strategy.{Machine, Manager}
use so2c2011tp.Fs.DiskManager.Inodes.{Inode, read_inode, clear_errno}
use so2c2011tp.Fs.FileSystem.{FileSystem, no_inode}
use so2c2011tp.Fs.FileSystem.Table.{find_index, entry_of}

pub record IsTable {S : Type 0} (st : FileSystem S) : Type 0 where
  pub size : length st.inodes ≡ 15
  pub next : st.next_to_free < 15

-- What the disk manager reads of an inode into the next entry to be replaced.
abbrev pub read_in : {S : Type 0} → Machine S → ℕ → FileSystem S → Inode × Manager S
read_in mc inode st = read_inode mc (entry_of st.next_to_free st) inode (clear_errno mc st.mgr)

-- None of the entries is that of the inode.
abbrev pub IsAbsent : {S : Type 0} → ℕ → FileSystem S → Type 0
IsAbsent inode st = (j : ℕ) → j < 15 → (entry_of j st).inode_id ≢ inode

-- What `_indexOf` may answer, and the state behind it.
pub data Indexed {S : Type 0} (mc : Machine S) (inode : ℕ) (st : FileSystem S)
    : Option ℕ × FileSystem S → Type 0 where
  hit :
      (i : ℕ)
      → i < 15
      → (entry_of i st).inode_id ≡ inode
      → ((j : ℕ) → j < i → (entry_of j st).inode_id ≢ inode)
      → Indexed mc inode st (some i, st)
  loaded :
      (st' : FileSystem S)
      → IsAbsent inode st
      → (read_in mc inode st).1.errno ≡ pos 0
      → st'.mgr ≡ (read_in mc inode st).1
      → entry_of st.next_to_free st' ≡ (read_in mc inode st).0
      → (entry_of st.next_to_free st').inode_id ≡ inode
      → ((j : ℕ) → j ≢ st.next_to_free → entry_of j st' ≡ entry_of j st)
      → length st'.inodes ≡ 15
      → st'.next_to_free ≡ (if st.next_to_free == 14 then 0 else st.next_to_free + 1)
      → Indexed mc inode st (some st.next_to_free, st')
  failed :
      (st' : FileSystem S)
      → IsAbsent inode st
      → (read_in mc inode st).1.errno ≢ pos 0
      → st'.mgr ≡ (read_in mc inode st).1
      → entry_of st.next_to_free st' ≡ (read_in mc inode st).0
      → ((j : ℕ) → j ≢ st.next_to_free → entry_of j st' ≡ entry_of j st)
      → length st'.inodes ≡ 15
      → st'.next_to_free ≡ st.next_to_free
      → Indexed mc inode st (none, st')

pub find_index_lem :
    (xs : List Inode) (inode k i : ℕ)
    → find_index xs inode k ≡ some i
    → (k ≤ i) × (i < k + length xs) × ((get_or xs (i - k) no_inode).inode_id ≡ inode)
unfolding find_index
find_index_lem [] inode k i e = ground (arith, e)
find_index_lem (x ∷ xs) inode k i e = elim (Bool-cases (x.inode_id == inode)) [
  | inl same ↦
      (let at : i ≡ k = ground (arith, e, same) in
        (
          omega (arith, at),
          omega (arith, at),
          ap (λ n. (get_or (x ∷ xs) n no_inode).inode_id) {x = i - k} {y = 0} (omega (arith, at))
              ∙ (==_iff x.inode_id inode).0 same,
        ))
  | inr other ↦
      (let (lo, hi, id) = find_index_lem xs inode (k + 1) i (ground (arith, e, other)) in
        (
          omega arith,
          omega arith,
          ap (λ n. (get_or (x ∷ xs) n no_inode).inode_id) {x = i - k} {y = suc (i - (k + 1))}
                (omega arith)
              ∙ id,
        ))
]

pub find_index_at :
    (xs : List Inode) (inode i : ℕ)
    → find_index xs inode 0 ≡ some i
    → (i < length xs) × ((get_or xs i no_inode).inode_id ≡ inode)
find_index_at xs inode i e =
    let (_, below, id) = find_index_lem xs inode 0 i e in
    (omega arith, ap (λ n. (get_or xs n no_inode).inode_id) {x = i} {y = i - 0} (omega arith) ∙ id)
