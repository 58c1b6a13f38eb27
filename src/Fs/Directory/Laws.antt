-- ===== src/Fs/Directory/Laws.antt =====
-- The loops over the contents of a directory, against the list of its entries.
use so2c2011tp.Prelude.{
  ℕ, zero, suc, ◌≤◌, ◌<◌, ◌≡◌, refl, sym, ap, ◌∙◌, inl, inr, ◌⊎◌, Bool, true, false, not, ◌&&◌,
  Option, none, some, List, [], ◌∷◌, ◌++◌, arith, length, ◌==◌, if◌then◌else◌, take, drop, get_or,
  Bool-cases, length-append,
}
use so2c2011tp.Text.{Text, equal_texts}
use so2c2011tp.Text.Compare.{equal_texts_self}
use so2c2011tp.Fs.Structs.{u32_at, u32_bytes}
use so2c2011tp.Fs.Structs.RoundTrip.{u32_at-u32_bytes}
use so2c2011tp.Fs.Directory.{removed, size_of_entry, text_of, find_entry, append_entry}

-- An entry: its inode number and the 24 bytes of its name.
pub record Entry : Type 0 where
  pub inode : ℕ
  pub name : List ℕ

abbrev pub entry_bytes : Entry → List ℕ
entry_bytes e = u32_bytes e.inode ++ e.name

abbrev pub dir_bytes : List Entry → List ℕ
dir_bytes [] = []
dir_bytes (e ∷ es) = entry_bytes e ++ dir_bytes es

-- There is a NUL among the bytes.
abbrev pub HasEnd : List ℕ → Type 0
HasEnd [] = ⊥
HasEnd (c ∷ cs) = (c ≡ 0) ⊎ HasEnd cs

-- The numbers of inodes end below 255, whose first byte would be that of a removed entry.
pub record IsEntry (e : Entry) : Type 0 where
  pub number : (e.inode < 255) ⊎ (e.inode ≡ removed)
  pub size : length e.name ≡ 24
  pub ended : HasEnd e.name

abbrev pub AreEntries : List Entry → Type 0
AreEntries [] = Unit
AreEntries (e ∷ es) = IsEntry e × AreEntries es

abbrev pub is_named : Entry → Text → Bool
is_named e name = not (e.inode == removed) && equal_texts name (text_of e.name)

-- The inode of the first entry with a name.
abbrev pub lookup : List Entry → Text → Option ℕ
lookup [] name = none
lookup (e ∷ es) name = if is_named e name then some e.inode else lookup es name

-- The entry takes the place of the first that was removed, or stands at the end.
abbrev pub insert : List Entry → Entry → Bool × List Entry
insert [] e = (false, e ∷ [])
insert (x ∷ xs) e =
    if x.inode == removed then (true, e ∷ xs) else ((insert xs e).0, x ∷ (insert xs e).1)

pub append_assoc : (xs ys zs : List ℕ) → (xs ++ ys) ++ zs ≡ xs ++ (ys ++ zs)
append_assoc [] ys zs = refl
append_assoc (x ∷ xs) ys zs = ap (λ l. x ∷ l) (append_assoc xs ys zs)

append_nil : (xs : List ℕ) → xs ++ [] ≡ xs
append_nil [] = refl
append_nil (x ∷ xs) = ap (λ l. x ∷ l) (append_nil xs)

pub drop-append : (xs ys : List ℕ) (n : ℕ) → length xs ≡ n → drop n (xs ++ ys) ≡ ys
drop-append [] ys zero h = refl
drop-append [] ys (suc n) h = absurd (omega (arith, h))
drop-append (x ∷ xs) ys zero h = absurd (omega (arith, h))
drop-append (x ∷ xs) ys (suc n) h = drop-append xs ys n (omega (arith, h))

pub take-append : (xs ys : List ℕ) (n : ℕ) → length xs ≡ n → take n (xs ++ ys) ≡ xs
take-append [] ys zero h = refl
take-append [] ys (suc n) h = absurd (omega (arith, h))
take-append (x ∷ xs) ys zero h = absurd (omega (arith, h))
take-append (x ∷ xs) ys (suc n) h = ap (λ l. x ∷ l) (take-append xs ys n (omega (arith, h)))

text_of-append : (xs ys : List ℕ) → HasEnd xs → text_of (xs ++ ys) ≡ text_of xs
unfolding text_of
text_of-append [] ys h = absurd h
text_of-append (c ∷ cs) ys (inl e) = rw e refl
text_of-append (c ∷ cs) ys (inr h) = rw (text_of-append cs ys h) refl

pub length-u32_bytes : (n : ℕ) → length (u32_bytes n) ≡ 4
unfolding u32_bytes
length-u32_bytes n = refl

pub length-entry_bytes : (e : Entry) → length e.name ≡ 24 → length (entry_bytes e) ≡ 28
unfolding u32_bytes
length-entry_bytes e h = omega (arith, h)

-- What the code reads of the first entry.
pub record First (e : Entry) (rest : List ℕ) (contents : List ℕ) : Type 0 where
  pub inode : u32_at contents 0 ≡ e.inode
  pub text : text_of (drop 4 contents) ≡ text_of e.name
  pub behind : drop size_of_entry contents ≡ rest
  pub before : take size_of_entry contents ≡ entry_bytes e
  pub some_left : 0 < length contents

pub first_lem : (e : Entry) (rest : List ℕ) → IsEntry e → First e rest (entry_bytes e ++ rest)
first_lem e rest h = record {
  inode =
      ap (λ l. u32_at l 0) (append_assoc (u32_bytes e.inode) e.name rest)
      ∙ u32_at-u32_bytes e.inode (e.name ++ rest) (ground (arith, h.number));
  text =
      ap (λ l. text_of (drop 4 l)) (append_assoc (u32_bytes e.inode) e.name rest)
      ∙ ap text_of (drop-append (u32_bytes e.inode) (e.name ++ rest) 4 (length-u32_bytes e.inode))
      ∙ text_of-append e.name rest h.ended;
  behind = drop-append (entry_bytes e) rest 28 (length-entry_bytes e h.size);
  before = take-append (entry_bytes e) rest 28 (length-entry_bytes e h.size);
  some_left = omega (arith, length-append (entry_bytes e) rest, length-entry_bytes e h.size);
}

find_step :
    (n : ℕ) (contents : List ℕ) (name : Text) {e : Entry} {rest : List ℕ}
    → First e rest contents
    → find_entry (suc n) contents name
      ≡ (if is_named e name then some e.inode else find_entry n rest name)
unfolding find_entry
find_step n contents name {e} {rest} f =
    rw (f.inode, f.text, f.behind) (ground (arith, f.some_left))

pub find_entry-dir_bytes :
    (es : List Entry) (n : ℕ) (name : Text)
    → AreEntries es
    → length es ≤ n
    → find_entry n (dir_bytes es) name ≡ lookup es name
unfolding find_entry
find_entry-dir_bytes [] zero name h k = refl
find_entry-dir_bytes [] (suc n) name h k = refl
find_entry-dir_bytes (e ∷ es) zero name h k = absurd (omega (arith, k))
find_entry-dir_bytes (e ∷ es) (suc n) name h k =
    find_step n (dir_bytes (e ∷ es)) name (first_lem e (dir_bytes es) h.0)
    ∙ ap (λ o. if is_named e name then some e.inode else o)
        (find_entry-dir_bytes es n name h.1 (omega arith))

first_byte :
    (e : Entry) (rest : List ℕ)
    → IsEntry e
    → (get_or (entry_bytes e ++ rest) 0 0 == 255) ≡ (e.inode == removed)
unfolding u32_bytes
first_byte e rest h = ground (arith, h.number)

-- One round of the loop of `_appendFile`.
append_step :
    (n : ℕ) (contents entry : List ℕ) {e : Entry} {rest : List ℕ}
    → First e rest contents
    → (get_or contents 0 0 == 255) ≡ (e.inode == removed)
    → append_entry (suc n) contents entry ≡ (
        if e.inode == removed
        then (true, entry ++ rest)
        else ((append_entry n rest entry).0, entry_bytes e ++ (append_entry n rest entry).1))
unfolding append_entry
append_step n contents entry {e} {rest} f b =
    rw (f.behind, f.before, b) (ground (arith, f.some_left))

append_entry-dir_bytes :
    (es : List Entry) (n : ℕ) (new : Entry)
    → AreEntries es
    → length es ≤ n
    → append_entry n (dir_bytes es) (entry_bytes new)
      ≡ ((insert es new).0, dir_bytes (insert es new).1)
unfolding append_entry
append_entry-dir_bytes [] zero new h k = ap (λ l. (false, l)) (sym (append_nil (entry_bytes new)))
append_entry-dir_bytes [] (suc n) new h k =
    ap (λ l. (false, l)) (sym (append_nil (entry_bytes new)))
append_entry-dir_bytes (e ∷ es) zero new h k = absurd (omega (arith, k))
append_entry-dir_bytes (e ∷ es) (suc n) new h k =
    append_step n (dir_bytes (e ∷ es)) (entry_bytes new) (first_lem e (dir_bytes es) h.0)
      (first_byte e (dir_bytes es) h.0)
    ∙ rw (append_entry-dir_bytes es n new h.1 (omega arith))
        (elim (Bool-cases (e.inode == removed)) [
          | inl gone ↦ rw gone refl
          | inr here ↦ rw here refl
        ])

-- A new entry is found by its name if no entry had it.
lookup-insert :
    (es : List Entry) (new : Entry)
    → new.inode < 255
    → lookup es (text_of new.name) ≡ none
    → lookup (insert es new).1 (text_of new.name) ≡ some new.inode
lookup-insert [] new k h = ground (arith, k, equal_texts_self (text_of new.name))
lookup-insert (e ∷ es) new k h = elim (Bool-cases (e.inode == removed)) [
  | inl gone ↦ rw gone (ground (arith, k, equal_texts_self (text_of new.name)))
  | inr here ↦ (elim (Bool-cases (is_named e (text_of new.name))) [
    | inl found ↦ ground (arith, h)
    | inr other ↦ rw (here, other) (lookup-insert es new k (ground (arith, h)))
  ])
]

-- The other names keep their inodes.
lookup-insert_other :
    (es : List Entry) (new : Entry) (name : Text)
    → equal_texts name (text_of new.name) ≡ false
    → lookup (insert es new).1 name ≡ lookup es name
lookup-insert_other [] new name h = ground (arith, h)
lookup-insert_other (e ∷ es) new name h = elim (Bool-cases (e.inode == removed)) [
  | inl gone ↦ rw gone (ground (arith, h))
  | inr here ↦ ground (arith, here, lookup-insert_other es new name h)
]

insert-AreEntries :
    (es : List Entry) (new : Entry) → AreEntries es → IsEntry new → AreEntries (insert es new).1
insert-AreEntries [] new h k = (k, tt)
insert-AreEntries (e ∷ es) new h k = elim (Bool-cases (e.inode == removed)) [
  | inl gone ↦ rw gone (k, h.1)
  | inr here ↦ rw here (h.0, insert-AreEntries es new h.1 k)
]

pub fewer_entries : (es : List Entry) → AreEntries es → length es ≤ length (dir_bytes es)
fewer_entries [] h = omega arith
fewer_entries (e ∷ es) h = omega (
  arith,
  fewer_entries es h.1,
  length-append (entry_bytes e) (dir_bytes es),
  length-entry_bytes e h.0.size,
)

-- `fs_finddir` on the contents of a directory.
abbrev pub find : List ℕ → Text → Option ℕ
find contents name = find_entry (length contents) contents name

find-dir_bytes :
    (es : List Entry) (name : Text) → AreEntries es → find (dir_bytes es) name ≡ lookup es name
find-dir_bytes es name h =
    find_entry-dir_bytes es (length (dir_bytes es)) name h (fewer_entries es h)

-- `_appendFile` on the contents of a directory.
abbrev pub appended : List ℕ → Entry → List ℕ
appended contents new = (append_entry (length contents) contents (entry_bytes new)).1

appended-dir_bytes :
    (es : List Entry) (new : Entry)
    → AreEntries es
    → appended (dir_bytes es) new ≡ dir_bytes (insert es new).1
appended-dir_bytes es new h =
    ap (λ r. r.1) (append_entry-dir_bytes es (length (dir_bytes es)) new h (fewer_entries es h))

-- In the contents of a directory whose entries have 24 bytes of name with a NUL among them and inodes
-- below 255, or -1 where the entry was removed, a new entry that is appended under a name which is not
-- found is found from then on, with its inode, and every other name is found, or not, as before.
pub find_entry-append_entry :
    (es : List Entry) (new : Entry) (name : Text)
    → AreEntries es
    → IsEntry new
    → new.inode < 255
    → find (dir_bytes es) (text_of new.name) ≡ none
    → equal_texts name (text_of new.name) ≡ false
    → (find (appended (dir_bytes es) new) (text_of new.name) ≡ some new.inode)
      × (find (appended (dir_bytes es) new) name ≡ find (dir_bytes es) name)
find_entry-append_entry es new name h k b absent other =
    let after : (m : Text) → find (appended (dir_bytes es) new) m ≡ lookup (insert es new).1 m =
      λ m.
        ap (λ c. find c m) (appended-dir_bytes es new h)
        ∙ find-dir_bytes (insert es new).1 m (insert-AreEntries es new h k) in
    (
      after (text_of new.name)
          ∙ lookup-insert es new b (sym (find-dir_bytes es (text_of new.name) h) ∙ absent),
      after name ∙ lookup-insert_other es new name other ∙ sym (find-dir_bytes es name h),
    )
