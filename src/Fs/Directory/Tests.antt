-- ===== src/Fs/Directory/Tests.antt =====
-- A directory of the root, itself, its parent and two files, of which one was removed.
use so2c2011tp.Prelude.{
  ℕ, ◌≡◌, ◌<◌, ◌⊎◌, refl, inl, inr, none, some, List, [], ◌∷◌, arith, replicate, false,
}
use so2c2011tp.Text.{equal_texts, strcmp, to_char}
use so2c2011tp.Prelude.Int.{◌-ℤ◌}
use so2c2011tp.Fs.Structs.{u32_at, u32_bytes}
use so2c2011tp.Fs.Directory.{removed, text_of, find_entry, find_inode, entry_at}
use so2c2011tp.Fs.Directory.Removal.{Removal, find_inode-dir_bytes}
use so2c2011tp.Fs.Directory.Laws.{
  Entry, IsEntry, AreEntries, dir_bytes, find, appended, find_entry-append_entry,
}
use so2c2011tp.Fs.Directory.Listing.{entry_at-dir_bytes}

-- A name of one letter.
abbrev letter : ℕ → List ℕ
letter c = c ∷ replicate 23 0

abbrev named : ℕ → ℕ → Entry
named inode c = record { inode = inode; name = letter c }

named-IsEntry : (inode c : ℕ) → (inode < 255) ⊎ (inode ≡ removed) → IsEntry (named inode c)
named-IsEntry inode c h = record { number = h; size = refl; ended = inr (inl refl) }

abbrev files : List Entry
files = named 0 92 ∷ named 2 46 ∷ named removed 98 ∷ named 5 97 ∷ []

files-AreEntries : AreEntries files
files-AreEntries = (
  named-IsEntry 0 92 (inl (omega arith)),
  (
    named-IsEntry 2 46 (inl (omega arith)),
    (named-IsEntry removed 98 (inr refl), (named-IsEntry 5 97 (inl (omega arith)), tt)),
  ),
)

absent : find (dir_bytes files) (text_of (letter 99)) ≡ none
unfolding find_entry text_of strcmp to_char ◌-ℤ◌ u32_at u32_bytes
absent = refl

other : equal_texts (97 ∷ []) (text_of (letter 99)) ≡ false
unfolding text_of strcmp to_char ◌-ℤ◌
other = refl

find_entry-append_entry_example :
    (find (appended (dir_bytes files) (named 7 99)) (text_of (letter 99)) ≡ some 7)
    × (find (appended (dir_bytes files) (named 7 99)) (97 ∷ []) ≡ find (dir_bytes files) (97 ∷ []))
find_entry-append_entry_example =
    find_entry-append_entry files (named 7 99) (97 ∷ []) files-AreEntries
      (named-IsEntry 7 99 (inl (omega arith))) (omega arith) absent other

entry_at-dir_bytes_example : entry_at (dir_bytes files) 1 ≡ some 5
entry_at-dir_bytes_example =
    entry_at-dir_bytes (named 0 92) (named 2 46 ∷ named removed 98 ∷ named 5 97 ∷ []) 1
      files-AreEntries (omega arith)

find_inode-dir_bytes_example :
    Removal
      (dir_bytes (named 0 92 ∷ []))
      (named 2 46 ∷ named removed 98 ∷ named 5 97 ∷ [])
      5
      (find_inode 3 (dir_bytes files) 28 5)
unfolding u32_bytes
find_inode-dir_bytes_example =
    find_inode-dir_bytes 3 (dir_bytes (named 0 92 ∷ []))
      (named 2 46 ∷ named removed 98 ∷ named 5 97 ∷ []) 5 files-AreEntries.1 (omega arith)
