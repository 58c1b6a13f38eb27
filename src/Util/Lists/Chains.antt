-- ===== src/Util/Lists/Chains.antt =====
-- What the operations of the linked list do to its chain of cells.
use so2c2011tp.Prelude.{
  ℕ, zero, suc, ◌-◌, ◌<◌, ◌≡◌, ◌≢◌, refl, sym, ap, subst, ◌∙◌, inl, inr, false, ◌||◌, some, List,
  [], ◌∷◌, arith, length, ◌==◌, leb, if◌then◌else◌, get_or, Bool-cases, ==_iff,
}
use so2c2011tp.Util.Lists.{
  ListNode, ListState, list_is_empty, list_size, list_add, list_get, list_remove, walk, walk_until,
}

-- The cells from `p` on hold the elements, and stand at the addresses `ps`.
abbrev pub Chain : (ℕ → ListNode) → ℕ → List ℕ → List ℕ → Type 0
Chain cells p [] [] = p ≡ 0
Chain cells p (q ∷ qs) (x ∷ xs) =
    (p ≡ q) × (p ≢ 0) × ((cells p).element ≡ x) × Chain cells (cells p).next qs xs
Chain cells p [] (x ∷ xs) = ⊥
Chain cells p (q ∷ qs) [] = ⊥

-- The address is none of these.
abbrev pub IsApart : ℕ → List ℕ → Type 0
IsApart p [] = Unit
IsApart p (q ∷ qs) = (q ≢ p) × IsApart p qs

-- The list holds the elements, in its cells `ps`.
pub record Holds (l : ListState) (ps xs : List ℕ) : Type 0 where
  pub chain : Chain l.cells l.first ps xs
  pub count : l.size ≡ length xs

Chain-keep :
    (cells cells' : ℕ → ListNode) (a p : ℕ) (ps xs : List ℕ)
    → ((q : ℕ) → q ≢ a → cells' q ≡ cells q)
    → IsApart a ps
    → Chain cells p ps xs
    → Chain cells' p ps xs
Chain-keep cells cells' a p [] [] k h c = c
Chain-keep cells cells' a p (q ∷ qs) (x ∷ xs) k h (e, n, v, c) =
    let same : cells' p ≡ cells p = k p (λ m. h.0 (sym e ∙ m)) in
    (
      e,
      n,
      ap (λ d. d.element) same ∙ v,
      subst (λ d. Chain cells' d.next qs xs) (sym same)
          (Chain-keep cells cells' a (cells p).next qs xs k h.1 c),
    )
Chain-keep cells cells' a p [] (x ∷ xs) k h c = c
Chain-keep cells cells' a p (q ∷ qs) [] k h c = c

first_next : (p : ℕ) → (if p == 0 then 0 else p) ≡ p
first_next p = ground arith

Chain-nonnull :
    (cells : ℕ → ListNode) (p : ℕ) (ps xs : List ℕ) → Chain cells p ps xs → 0 < length xs → p ≢ 0
Chain-nonnull cells p ps [] c h = absurd (omega (arith, h))
Chain-nonnull cells p [] (x ∷ xs) c h = absurd c
Chain-nonnull cells p (q ∷ qs) (x ∷ xs) c h = c.1

-- A cell that is put in front of a list, at an address other than NULL and the cells of the list,
-- holds the new element, before all the old ones, and the size counts it.
pub list_add_lem :
    (p elem : ℕ) (l : ListState) (ps xs : List ℕ)
    → p ≢ 0
    → IsApart p ps
    → Holds l ps xs
    → Holds (list_add p elem l) (p ∷ ps) (elem ∷ xs)
unfolding list_add list_is_empty
list_add_lem p elem l ps xs h apart o =
    let cells' = (list_add p elem l).cells in
    let new : ListNode = record { element = elem; next = l.first } in
    let at : cells' p ≡ new =
      rw ((==_iff p p).1 refl) (
        ap {A = ℕ} {B = ListNode} (λ n. record { element = elem; next = n })
          (first_next l.first)) in
    record {
      chain = (
        refl,
        h,
        ap (λ d. d.element) at,
        subst (λ d. Chain cells' d.next ps xs) (sym at)
            (Chain-keep l.cells cells' p l.first ps xs
              (λ q ne. elim (Bool-cases (q == p)) [
                | inl same ↦ absurd (ne ((==_iff q p).0 same))
                | inr other ↦ rw other refl
              ])
              apart o.chain),
      );
      count = omega (arith, o.count);
    }

walk_until_lem :
    (cells : ℕ → ListNode) (n p : ℕ) (ps xs : List ℕ)
    → Chain cells p ps xs
    → n < length xs
    → (cells (walk_until cells n p)).element ≡ get_or xs n 0
unfolding walk_until
walk_until_lem cells n p ps [] c h = absurd (omega (arith, h))
walk_until_lem cells n p [] (x ∷ xs) c h = absurd c
walk_until_lem cells zero p (q ∷ qs) (x ∷ xs) c h = c.2
walk_until_lem cells (suc n) p (q ∷ qs) (x ∷ xs) (e, m, v, c) h =
    elim (Bool-cases ((cells p).next == 0)) [
      | inl ended ↦ absurd (
          Chain-nonnull cells (cells p).next qs xs c (omega (arith, h))
            ((==_iff (cells p).next 0).0 ended))
      | inr more ↦ rw more (walk_until_lem cells n (cells p).next qs xs c (omega (arith, h)))
    ]

walk_lem :
    (cells : ℕ → ListNode) (n p : ℕ) (ps xs : List ℕ)
    → Chain cells p ps xs
    → n < length xs
    → (walk cells n p ≡ get_or ps n 0) × ((cells (walk cells n p)).element ≡ get_or xs n 0)
unfolding walk
walk_lem cells n p ps [] c h = absurd (omega (arith, h))
walk_lem cells n p [] (x ∷ xs) c h = absurd c
walk_lem cells zero p (q ∷ qs) (x ∷ xs) c h = (c.0, c.2)
walk_lem cells (suc n) p (q ∷ qs) (x ∷ xs) (e, m, v, c) h =
    walk_lem cells n (cells p).next qs xs c (omega (arith, h))

Chain-ext :
    (cells cells' : ℕ → ListNode) (p : ℕ) (ps xs : List ℕ)
    → ((q : ℕ) → cells' q ≡ cells q)
    → Chain cells p ps xs
    → Chain cells' p ps xs
Chain-ext cells cells' p [] [] k c = c
Chain-ext cells cells' p (q ∷ qs) (x ∷ xs) k (e, n, v, c) = (
  e,
  n,
  ap (λ d. d.element) (k p) ∙ v,
  subst (λ d. Chain cells' d.next qs xs) (sym (k p))
      (Chain-ext cells cells' (cells p).next qs xs k c),
)
Chain-ext cells cells' p [] (x ∷ xs) k c = c
Chain-ext cells cells' p (q ∷ qs) [] k c = c

-- The two tests of `list_remove` and `list_get` pass for an index inside the list.
inside :
    (l : ListState) (ps xs : List ℕ) (n : ℕ)
    → Holds l ps xs
    → n < length xs
    → (list_is_empty l || leb (list_size l) n) ≡ false
unfolding list_is_empty list_size
inside l ps xs n o h =
    let some_cell : l.first ≢ 0 = Chain-nonnull l.cells l.first ps xs o.chain (omega (arith, h)) in
    ground (arith, o.count, ==_iff l.first 0)

-- For an index inside the list, `list_get` answers with the element there.
pub list_get_lem :
    (n : ℕ) (l : ListState) (ps xs : List ℕ)
    → Holds l ps xs
    → n < length xs
    → list_get n l ≡ some (get_or xs n 0)
unfolding list_get
list_get_lem n l ps xs o h =
    rw (inside l ps xs n o h) (ap some (walk_until_lem l.cells n l.first ps xs o.chain h))

-- `prev` is the cell that is removed, so its next cell is set to what it is.
self_link :
    (cells : ℕ → ListNode) (a q : ℕ)
    → (if q == a then record (cells q) { next = (cells a).next } else cells q) ≡ cells q
self_link cells a q = elim (Bool-cases (q == a)) [
  | inl same ↦ rw same (
      ap {A = ℕ} {B = ListNode} (λ b. record (cells q) { next = (cells b).next })
        (sym ((==_iff q a).0 same)))
  | inr other ↦ rw other refl
]

-- Removing an element other than the first answers with the element and lowers the size, and frees its
-- cell, but the chain from the first cell on still leads through all the old cells, the freed one too.
pub list_remove_dangles :
    (n : ℕ) (l : ListState) (ps xs : List ℕ)
    → Holds l ps xs
    → suc n < length xs
    → let (got, l') = list_remove (suc n) l in
      (got ≡ some (get_or xs (suc n) 0))
      × (l'.size ≡ length xs - 1)
      × (l'.is_allocated (get_or ps (suc n) 0) ≡ false)
      × Chain l'.cells l'.first ps xs
unfolding list_remove
list_remove_dangles n l ps xs o h =
    let (at, value) = walk_lem l.cells (suc n) l.first ps xs o.chain h in
    let never : (suc n == 0) ≡ false = ground arith in
    rw (inside l ps xs (suc n) o h, never)
      (
        ap some value,
        ap (λ k. k - 1) o.count,
        ground (arith, at, ==_iff (get_or ps (suc n) 0) (walk l.cells (suc n) l.first)),
        Chain-ext l.cells _ l.first ps xs (λ q. self_link l.cells (walk l.cells (suc n) l.first) q)
            o.chain,
      )
