-- ===== src/Fs/Directory/Listing.antt =====
-- `fs_readdir`: the entries of a directory by their index.
use so2c2011tp.Prelude.{
  ℕ, zero, suc, ◌+◌, ◌-◌, ◌^◌, ◌≤◌, ◌<◌, ◌≡◌, refl, sym, ap, subst, ◌∙◌, inl, inr, Option, none,
  some, List, [], ◌∷◌, arith, length, ◌==◌, if◌then◌else◌, Bool-cases, ==_iff, length-append,
}
use so2c2011tp.Fs.Structs.{sub32}
use so2c2011tp.Fs.Directory.{removed, read_entries, entry_at}
use so2c2011tp.Fs.Directory.Laws.{
  Entry, AreEntries, First, entry_bytes, dir_bytes, first_lem, drop-append, length-entry_bytes,
  fewer_entries,
}

-- The inode of the entry with an index, of those that were not removed.
abbrev pub nth_live : List Entry → ℕ → Option ℕ
nth_live [] k = none
nth_live (e ∷ es) k =
    if e.inode == removed
    then nth_live es k
    else (if k == 0 then some e.inode else nth_live es (k - 1))

-- How the loop ends: one past the index with the inode there, or before.
data Listed (index : ℕ) : Option ℕ → ℕ × ℕ → Type 0 where
  found : (x : ℕ) → Listed index (some x) (index + 1, x)
  ended : (i inode : ℕ) → i ≤ index → Listed index none (i, inode)

read_entries_past :
    (n : ℕ) (contents : List ℕ) (index inode : ℕ)
    → read_entries n contents index (index + 1) inode ≡ (index + 1, inode)
unfolding read_entries
read_entries_past zero contents index inode = refl
read_entries_past (suc n) contents index inode = ground arith

read_step :
    (n : ℕ) (contents : List ℕ) (index i inode : ℕ) {e : Entry} {rest : List ℕ}
    → First e rest contents
    → i ≤ index
    → read_entries (suc n) contents index i inode
      ≡ read_entries n rest index (if e.inode == removed then i else i + 1) e.inode
unfolding read_entries
read_step n contents index i inode f h = rw (f.inode, f.behind) (ground (arith, f.some_left))

read_entries_lem :
    (es : List Entry) (n index i inode : ℕ)
    → AreEntries es
    → length es ≤ n
    → i ≤ index
    → Listed index (nth_live es (index - i)) (read_entries n (dir_bytes es) index i inode)
unfolding read_entries
read_entries_lem [] zero index i inode h k p = ended i inode p
read_entries_lem [] (suc n) index i inode h k p =
    subst (Listed index none) (ground arith) (ended i inode p)
read_entries_lem (e ∷ es) zero index i inode h k p = absurd (omega (arith, k))
read_entries_lem (e ∷ es) (suc n) index i inode h k p =
    subst (Listed index (nth_live (e ∷ es) (index - i)))
      (sym (read_step n (dir_bytes (e ∷ es)) index i inode (first_lem e (dir_bytes es) h.0) p))
      (elim (Bool-cases (e.inode == removed)) [
        | inl gone ↦ rw gone (read_entries_lem es n index i e.inode h.1 (omega arith) p)
        | inr here ↦ (elim (Bool-cases (index - i == 0)) [
          | inl now ↦
              rw (here, now)
                (let last : i ≡ index = omega (arith, (==_iff (index - i) 0).0 now) in
                  rw last (
                    subst (Listed index (some e.inode))
                      (sym (read_entries_past n (dir_bytes es) index e.inode)) (found e.inode)))
          | inr later ↦
              rw (here, later)
                (subst
                  (λ m.
                    Listed index (nth_live es m)
                      (read_entries n (dir_bytes es) index (i + 1) e.inode))
                  {x = index - (i + 1)} {y = index - i - 1} (omega arith)
                  (read_entries_lem es n index (i + 1) e.inode h.1 (omega arith)
                    (ground (arith, later, ==_iff (index - i) 0))))
        ])
      ])

Listed-answer :
    (index : ℕ) (o : Option ℕ) (r : ℕ × ℕ)
    → index < 2 ^ 32 - 1
    → Listed index o r
    → (if sub32 r.0 1 == index then some r.1 else none) ≡ o
Listed-answer index o r h (found x) = ground arith
Listed-answer index o r h (ended i inode p) = ground arith

-- In the contents of a directory, the loop of `fs_readdir` answers, for every index below 2 ^ 32 - 1,
-- with the inode of the entry that has this index among those after the first that were not removed,
-- or with none.
pub entry_at-dir_bytes :
    (e : Entry) (es : List Entry) (index : ℕ)
    → AreEntries (e ∷ es)
    → index < 2 ^ 32 - 1
    → entry_at (dir_bytes (e ∷ es)) index ≡ nth_live es index
unfolding entry_at
entry_at-dir_bytes e es index h below =
    let n = length (dir_bytes (e ∷ es)) in
    let enough : length es ≤ n =
      omega (arith, fewer_entries es h.1, length-append (entry_bytes e) (dir_bytes es)) in
    ap
      (λ c.
        let (i, inode) = read_entries n c index 0 removed in
        if sub32 i 1 == index then some inode else none)
      (drop-append (entry_bytes e) (dir_bytes es) 28 (length-entry_bytes e h.0.size))
    ∙ Listed-answer index (nth_live es (index - 0)) (read_entries n (dir_bytes es) index 0 removed)
        below (read_entries_lem es n index 0 removed h.1 enough (omega arith))
    ∙ ap (nth_live es) (omega arith)
