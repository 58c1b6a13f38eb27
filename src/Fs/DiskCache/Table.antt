-- ===== src/Fs/DiskCache/Table.antt =====
-- The table of cached sectors as a map from disk and sector to an entry.
use so2c2011tp.Prelude.{
  ℕ, zero, suc, ◌+◌, ◌<◌, ◌≤◌, ◌^◌, ◌≡◌, ◌≢◌, ◌⊎◌, inl, inr, ap, refl, sym, ◌∙◌, Bool, true, false,
  ◌&&◌, Option, none, some, List, [], ◌∷◌, arith, Bool-cases, Option-cases, ◌==◌, ltb,
  if◌then◌else◌, set, get_or, length,
}
use so2c2011tp.Fs.DiskCache.{
  CachedSector, blank, is_used, cache_index, to_short, choose_entry, Choice, unused, replace,
  count_at,
}

-- The test of `_cacheIndex` where the sector is no less than 0 as a `short`.
abbrev pub is_at : CachedSector → ℕ → ℕ → Bool
is_at c disk sector = is_used c && (c.sector == sector) && (c.disk == disk)

abbrev pub lookup : List CachedSector → ℕ → ℕ → Option CachedSector
lookup [] disk sector = none
lookup (c ∷ cs) disk sector = if is_at c disk sector then some c else lookup cs disk sector

-- No sector is cached twice.
abbrev pub Distinct : List CachedSector → Type 0
Distinct [] = Unit
Distinct (c ∷ cs) = (is_used c ≡ true → lookup cs c.disk c.sector ≡ none) × Distinct cs

-- No entry but the `i`-th holds the sector.
abbrev pub Apart : List CachedSector → ℕ → ℕ → ℕ → Type 0
Apart [] i disk sector = Unit
Apart (c ∷ cs) zero disk sector = lookup cs disk sector ≡ none
Apart (c ∷ cs) (suc i) disk sector = (is_at c disk sector ≡ false) × Apart cs i disk sector

abbrev pub All : (CachedSector → Type 0) → List CachedSector → Type 0
All P [] = Unit
All P (c ∷ cs) = P c × All P cs

-- A sector below 2 ^ 15 is found where it is; from there on the test compares an `unsigned short`
-- with a negative `short`.
pub cache_index_lem :
    (cs : List CachedSector) (disk sector : ℕ)
    → sector < 2 ^ 15
    → ((cache_index cs disk (to_short sector) ≡ none) × (lookup cs disk sector ≡ none))
      ⊎ ((i : ℕ) × (cache_index cs disk (to_short sector) ≡ some i)
          × (i < length cs)
          × (lookup cs disk sector ≡ some (get_or cs i blank))
          × (is_at (get_or cs i blank) disk sector ≡ true))
unfolding cache_index to_short
cache_index_lem [] disk sector h = inl (refl, refl)
cache_index_lem (c ∷ cs) disk sector h = elim (Bool-cases (is_at c disk sector)) [
  | inl here ↦ inr (0, ground arith, omega arith, ground arith, here)
  | inr elsewhere ↦ elim (cache_index_lem cs disk sector h) [
    | inl (a, b) ↦ inl (ground arith, ground arith)
    | inr (i, a, b, c', d) ↦ inr (suc i, ground arith, omega arith, ground arith, d)
  ]
]

pub lookup-Apart :
    (cs : List CachedSector) (i disk sector : ℕ)
    → lookup cs disk sector ≡ none
    → Apart cs i disk sector
lookup-Apart [] i disk sector h = tt
lookup-Apart (c ∷ cs) zero disk sector h = ground arith
lookup-Apart (c ∷ cs) (suc i) disk sector h =
    (ground arith, lookup-Apart cs i disk sector (ground arith))

pub is_at_same :
    (c : CachedSector) (disk sector : ℕ)
    → is_at c disk sector ≡ true
    → (is_used c ≡ true) × (c.disk ≡ disk) × (c.sector ≡ sector)
is_at_same c disk sector h = ground arith

lookup-some :
    (cs : List CachedSector) (i disk sector : ℕ)
    → i < length cs
    → is_at (get_or cs i blank) disk sector ≡ true
    → lookup cs disk sector ≢ none
lookup-some [] i disk sector h e = absurd (omega arith)
lookup-some (c ∷ cs) zero disk sector h e = ground arith
lookup-some (c ∷ cs) (suc i) disk sector h e =
    ground (arith, lookup-some cs i disk sector (omega arith) e)

pub Distinct-Apart :
    (cs : List CachedSector) (i disk sector : ℕ)
    → Distinct cs
    → i < length cs
    → is_at (get_or cs i blank) disk sector ≡ true
    → Apart cs i disk sector
Distinct-Apart [] i disk sector d h e = tt
Distinct-Apart (c ∷ cs) zero disk sector d h e =
    let (u, p, q) = is_at_same c disk sector e in rw (← p, ← q) (d.0 u)
Distinct-Apart (c ∷ cs) (suc i) disk sector d h e = (
  (elim (Bool-cases (is_at c disk sector)) [
    | inl hit ↦
        let (u, p, q) = is_at_same c disk sector hit in
        absurd (lookup-some cs i disk sector (omega arith) e (rw (← p, ← q) (d.0 u)))
    | inr miss ↦ miss
  ]),
  Distinct-Apart cs i disk sector d.1 (omega arith) e,
)

-- A write to one entry, seen through the map.
pub lookup-set :
    (cs : List CachedSector) (i : ℕ) (c : CachedSector) (disk sector : ℕ)
    → Distinct cs
    → i < length cs
    → is_used c ≡ true
    → Apart cs i c.disk c.sector
    → lookup (set cs i c) disk sector ≡ (
        if (c.sector == sector) && (c.disk == disk)
        then some c
        else if is_at (get_or cs i blank) disk sector
        then none
        else lookup cs disk sector)
lookup-set [] i c disk sector d h u a = absurd (omega arith)
lookup-set (x ∷ cs) zero c disk sector d h u a = elim (Bool-cases (is_at x disk sector)) [
  | inl hit ↦
      let (v, p, q) = is_at_same x disk sector hit in
      let gone : lookup cs disk sector ≡ none = rw (← p, ← q) (d.0 v) in ground arith
  | inr miss ↦ ground arith
]
lookup-set (x ∷ cs) (suc i) c disk sector d h u a = elim (Bool-cases (is_at x disk sector)) [
  | inl hit ↦
      let (v, p, q) = is_at_same x disk sector hit in
      let gone : lookup cs disk sector ≡ none = rw (← p, ← q) (d.0 v) in
      elim (Bool-cases (is_at (get_or cs i blank) disk sector)) [
        | inl twice ↦ absurd (lookup-some cs i disk sector (omega arith) twice gone)
        | inr once ↦ ground arith
      ]
  | inr miss ↦ ground (arith, lookup-set cs i c disk sector d.1 (omega arith) u a.1)
]

Distinct-head :
    (x : CachedSector) (cs : List CachedSector) (i : ℕ) (c : CachedSector)
    → Distinct (x ∷ cs)
    → i < length cs
    → is_used c ≡ true
    → is_at x c.disk c.sector ≡ false
    → Apart cs i c.disk c.sector
    → is_used x ≡ true
    → lookup (set cs i c) x.disk x.sector ≡ none
Distinct-head x cs i c d h u m a v =
    ground (arith, lookup-set cs i c x.disk x.sector d.1 h u a, d.0 v)

pub Distinct-set :
    (cs : List CachedSector) (i : ℕ) (c : CachedSector)
    → Distinct cs
    → i < length cs
    → is_used c ≡ true
    → Apart cs i c.disk c.sector
    → Distinct (set cs i c)
Distinct-set [] i c d h u a = tt
Distinct-set (x ∷ cs) zero c d h u a = (λ _. a, d.1)
Distinct-set (x ∷ cs) (suc i) c d h u a =
    (Distinct-head x cs i c d (omega arith) u a.0 a.1, Distinct-set cs i c d.1 (omega arith) u a.1)

pub get_or-All :
    (P : CachedSector → Type 0) (cs : List CachedSector) (i : ℕ)
    → All P cs
    → i < length cs
    → P (get_or cs i blank)
get_or-All P [] i a h = absurd (omega arith)
get_or-All P (c ∷ cs) zero a h = a.0
get_or-All P (c ∷ cs) (suc i) a h = get_or-All P cs i a.1 (omega arith)

pub map-All :
    (P Q : CachedSector → Type 0) (cs : List CachedSector)
    → All P cs
    → ((x : CachedSector) → P x → Q x)
    → All Q cs
map-All P Q [] a f = tt
map-All P Q (y ∷ ys) a f = (f y a.0, map-All P Q ys a.1 f)

-- Entries none of which holds the sector may come to satisfy another predicate.
pub absent-All :
    (P Q : CachedSector → Type 0) (cs : List CachedSector) (disk sector : ℕ)
    → All P cs
    → lookup cs disk sector ≡ none
    → ((x : CachedSector) → (is_used x ≡ true → is_at x disk sector ≡ false) → P x → Q x)
    → All Q cs
absent-All P Q [] disk sector a e f = tt
absent-All P Q (y ∷ ys) disk sector a e f =
    (f y (λ u. ground arith) a.0, absent-All P Q ys disk sector a.1 (ground arith) f)

-- The entries apart from the one written may come to satisfy another predicate.
pub set-All :
    (P Q : CachedSector → Type 0) (cs : List CachedSector) (i : ℕ) (c : CachedSector)
    (disk sector : ℕ)
    → All P cs
    → Apart cs i disk sector
    → Distinct cs
    → Q c
    → ((x : CachedSector) → (is_used x ≡ true → is_at x disk sector ≡ false) → P x → Q x)
    → All Q (set cs i c)
set-All P Q [] i c disk sector a p d q f = tt
set-All P Q (x ∷ cs) zero c disk sector a p d q f = (q, absent-All P Q cs disk sector a.1 p f)
set-All P Q (x ∷ cs) (suc i) c disk sector a p d q f =
    (f x (λ _. p.0) a.0, set-All P Q cs i c disk sector a.1 p.1 d.1 q f)

-- How an entry is chosen: one that was never used, or else one that was used least.
abbrev pub Chosen : List CachedSector → Choice → Type 0
Chosen table (unused i) = (i < length table) × (is_used (get_or table i blank) ≡ false)
Chosen table (replace i) =
    (i < length table)
    × ((j : ℕ)
        → j < length table
        → (is_used (get_or table j blank) ≡ true) × (count_at table i ≤ count_at table j))

choose_entry_from :
    (table cs : List CachedSector) (i best : ℕ)
    → ((j : ℕ)
        → j < i
        → (is_used (get_or table j blank) ≡ true) × (count_at table best ≤ count_at table j))
    → ((j : ℕ) → get_or cs j blank ≡ get_or table (i + j) blank)
    → i + length cs ≡ length table
    → best < length table
    → Chosen table (choose_entry table cs i best)
unfolding choose_entry
choose_entry_from table [] i best least same len b = (b, λ j p. least j (omega arith))
choose_entry_from table (c ∷ cs) i best least same len b = elim (Option-cases c.access_count) [
  | inl free ↦ rw free (omega arith, rw here (rw free))
  | inr (n, used) ↦ rw used (
      choose_entry_from table cs (i + 1) (if ltb n (count_at table best) then i else best)
        (λ j p. elim (Bool-cases (j == i)) [
          | inl now ↦
              ground
                (arith, here, used, ap (λ k. get_or table k blank) {x = j} {y = i} (ground arith))
          | inr earlier ↦ ground (arith, here, used, least j)
        ])
        (λ j. same (suc j) ∙ ap (λ k. get_or table k blank) (omega arith)) (omega arith)
        (ground arith))
]
  where
    here : get_or table i blank ≡ c
    here = ap (λ k. get_or table k blank) {x = i} {y = i + 0} (omega arith) ∙ sym (same 0)

-- `_nextFreeIndex` takes an entry that was never used, if there is one, or else an entry of the
-- smallest access count.
pub choose_entry_lem :
    (table : List CachedSector) → 0 < length table → Chosen table (choose_entry table table 0 0)
choose_entry_lem table h =
    choose_entry_from table table 0 0 (λ j p. absurd (omega arith))
      (λ j. ap (λ k. get_or table k blank) (omega arith)) (omega arith) h

pub lookup_of_at :
    (cs : List CachedSector) (i disk sector : ℕ)
    → Distinct cs
    → i < length cs
    → is_at (get_or cs i blank) disk sector ≡ true
    → lookup cs disk sector ≡ some (get_or cs i blank)
lookup_of_at [] i disk sector d h e = absurd (omega arith)
lookup_of_at (c ∷ cs) zero disk sector d h e = ground arith
lookup_of_at (c ∷ cs) (suc i) disk sector d h e =
    let a = Distinct-Apart (c ∷ cs) (suc i) disk sector d h e in
    ground (arith, lookup_of_at cs i disk sector d.1 (omega arith) e, a.0)
