-- ===== src/Fs/Directory/Removal.antt =====
-- `fs_removedir`: the entry of an inode is found and marked as removed.
use so2c2011tp.Prelude.{
  ℕ, zero, suc, ◌+◌, ◌≤◌, ◌≡◌, ◌≢◌, refl, sym, ap, subst, ◌∙◌, inl, inr, false, Option, none, some,
  List, [], ◌∷◌, ◌++◌, arith, length, ◌==◌, if◌then◌else◌, drop, Bool-cases, length-append, lt→ltb,
}
use so2c2011tp.Fs.Structs.{u32_at, u32_bytes}
use so2c2011tp.Fs.Structs.RoundTrip.{u32_at-cons}
use so2c2011tp.Fs.DiskManager.Splice.{splice}
use so2c2011tp.Fs.Directory.{removed, size_of_entry, find_inode}
use so2c2011tp.Fs.Directory.Laws.{
  Entry, IsEntry, AreEntries, entry_bytes, dir_bytes, first_lem, drop-append, take-append,
  append_assoc, length-entry_bytes, length-u32_bytes,
}

-- The first entry of an inode is marked.
abbrev pub remove : List Entry → ℕ → List Entry
remove [] inode = []
remove (e ∷ es) inode =
    if e.inode == inode then record e { inode = removed } ∷ es else e ∷ remove es inode

-- No entry is that of the inode.
abbrev pub IsAbsent : List Entry → ℕ → Type 0
IsAbsent [] inode = Unit
IsAbsent (e ∷ es) inode = (e.inode ≢ inode) × IsAbsent es inode

-- What is found behind the bytes `before`: the place at which four bytes of -1 remove the entry.
pub data Removal (before : List ℕ) (es : List Entry) (inode : ℕ) : Option ℕ → Type 0 where
  place :
      (offset : ℕ)
      → splice (before ++ dir_bytes es) offset (u32_bytes removed)
        ≡ before ++ dir_bytes (remove es inode)
      → Removal before es inode (some offset)
  absent : IsAbsent es inode → Removal before es inode none

u32_at-append : (xs ys : List ℕ) → u32_at (xs ++ ys) (length xs) ≡ u32_at ys 0
u32_at-append [] ys = refl
u32_at-append (x ∷ xs) ys = u32_at-cons x (xs ++ ys) (length xs) ∙ u32_at-append xs ys

splice-append :
    (xs old ys new : List ℕ)
    → length old ≡ length new
    → splice (xs ++ (old ++ ys)) (length xs) new ≡ xs ++ (new ++ ys)
splice-append xs old ys new h =
    let n = length xs + length new in
    ap (λ l. l ++ (new ++ drop n (xs ++ (old ++ ys)))) (take-append xs (old ++ ys) (length xs) refl)
    ∙ ap (λ l. xs ++ (new ++ drop n l)) (sym (append_assoc xs old ys))
    ∙ ap (λ l. xs ++ (new ++ l))
        (drop-append (xs ++ old) ys n (omega (arith, length-append xs old)))

-- The four bytes of the number of the first entry are overwritten.
splice-entry :
    (before : List ℕ) (e : Entry) (rest : List ℕ)
    → splice (before ++ (entry_bytes e ++ rest)) (length before) (u32_bytes removed)
      ≡ before ++ (entry_bytes (record e { inode = removed }) ++ rest)
splice-entry before e rest =
    let number = u32_bytes e.inode in
    let gone = u32_bytes removed in
    ap (λ l. splice (before ++ l) (length before) gone) (append_assoc number e.name rest)
    ∙ splice-append before number (e.name ++ rest) gone
        (length-u32_bytes e.inode ∙ sym (length-u32_bytes removed))
    ∙ ap (λ l. before ++ l) (sym (append_assoc gone e.name rest))

-- One round of the loop of `fs_removedir`.
find_step :
    (n : ℕ) (before : List ℕ) (e : Entry) (rest : List ℕ) (inode : ℕ)
    → IsEntry e
    → find_inode (suc n) (before ++ (entry_bytes e ++ rest)) (length before) inode ≡ (
        if e.inode == inode
        then some (length before)
        else find_inode n (before ++ (entry_bytes e ++ rest)) (length before + size_of_entry) inode)
unfolding find_inode
find_step n before e rest inode h =
    let f = first_lem e rest h in
    rw (u32_at-append before (entry_bytes e ++ rest) ∙ f.inode) (
      ground (
        arith,
        f.some_left,
        length-append before (entry_bytes e ++ rest),
        lt→ltb (length before) (length (before ++ (entry_bytes e ++ rest))),
      ))

-- An entry that is passed over stands before what is left.
Removal-cons :
    (before : List ℕ) (e : Entry) (es : List Entry) (inode : ℕ) (o : Option ℕ)
    → (e.inode == inode) ≡ false
    → Removal (before ++ entry_bytes e) es inode o
    → Removal before (e ∷ es) inode o
Removal-cons before e es inode _ other (place offset p) = place offset (
    ap (λ l. splice l offset (u32_bytes removed))
      (sym (append_assoc before (entry_bytes e) (dir_bytes es)))
    ∙ p
    ∙ append_assoc before (entry_bytes e) (dir_bytes (remove es inode))
    ∙ ap (λ xs. before ++ dir_bytes xs) {x = e ∷ remove es inode} {y = remove (e ∷ es) inode}
        (rw other refl))
Removal-cons before e es inode _ other (absent a) = absent ((λ q. ground (arith, other, q)), a)

-- From the end of `before` on, the loop of `fs_removedir` over entries of a directory finds the first
-- that is of the inode, at a place where four bytes of -1 leave the contents in which this entry is
-- removed and nothing else has changed; it finds none only if no entry is of the inode.
pub find_inode-dir_bytes :
    (n : ℕ) (before : List ℕ) (es : List Entry) (inode : ℕ)
    → AreEntries es
    → length es ≤ n
    → Removal before es inode (find_inode n (before ++ dir_bytes es) (length before) inode)
unfolding find_inode
find_inode-dir_bytes zero before [] inode h k = absent tt
find_inode-dir_bytes (suc n) before [] inode h k =
    subst (Removal before [] inode) (ground (arith, length-append before [])) (absent tt)
find_inode-dir_bytes zero before (e ∷ es) inode h k = absurd (omega (arith, k))
find_inode-dir_bytes (suc n) before (e ∷ es) inode h k =
    subst (Removal before (e ∷ es) inode) (sym (find_step n before e (dir_bytes es) inode h.0))
      (elim (Bool-cases (e.inode == inode)) [
        | inl same ↦ rw same (
            place (length before) (
              splice-entry before e (dir_bytes es)
              ∙ ap (λ xs. before ++ dir_bytes xs) {x = record e { inode = removed } ∷ es}
                  {y = remove (e ∷ es) inode} (rw same refl)))
        | inr other ↦ rw other (
            Removal-cons before e es inode _ other (
              subst
                (λ (l : List ℕ).
                  Removal (before ++ entry_bytes e) es inode
                    (find_inode n l (length before + size_of_entry) inode))
                (append_assoc before (entry_bytes e) (dir_bytes es))
                (subst
                  (λ (m : ℕ).
                    Removal (before ++ entry_bytes e) es inode
                      (find_inode n ((before ++ entry_bytes e) ++ dir_bytes es) m inode))
                  (omega
                    (arith, length-append before (entry_bytes e), length-entry_bytes e h.0.size))
                  (find_inode-dir_bytes n (before ++ entry_bytes e) es inode h.1 (omega arith)))))
      ])
