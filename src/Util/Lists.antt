-- ===== src/Util/Lists.antt =====
-- src/util/list.c: a linked list of cells in the heap. A pointer is an address, and NULL is 0.
pub mod Chains
mod Tests
use so2c2011tp.Prelude.{
  ℕ, zero, suc, ◌+◌, ◌-◌, Bool, true, false, ◌&&◌, ◌||◌, not, Option, none, some, ◌==◌, leb, ltb,
  if◌then◌else◌,
}

-- `node_t`
pub record ListNode : Type 0 where
  pub element : ℕ
  pub next : ℕ

-- `List` but for its name, and the heap: the cells that are allocated, by their addresses. What a
-- freed cell holds is the last that was written there.
pub record ListState : Type 0 where
  pub first : ℕ
  pub size : ℕ
  pub cells : ℕ → ListNode
  pub is_allocated : ℕ → Bool

-- `list_init`
unfoldable pub list_init : ListState → ListState
list_init l = record l { first = 0; size = 0 }

unfoldable pub list_is_empty : ListState → Bool
list_is_empty l = l.first == 0

unfoldable pub list_size : ListState → ℕ
list_size l = l.size

-- `list_add`, for the address that `malloc` returns.
unfoldable pub list_add : ℕ → ℕ → ListState → ListState
unfolding list_is_empty
list_add p elem l = record {
  first = p;
  size = l.size + 1;
  cells = λ q.
      if q == p
      then record { element = elem; next = if list_is_empty l then 0 else l.first }
      else l.cells q;
  is_allocated = λ q. if q == p then true else l.is_allocated q;
}

-- The cell that is reached by some steps.
unfoldable pub walk : (ℕ → ListNode) → ℕ → ℕ → ℕ
walk cells zero p = p
walk cells (suc n) p = walk cells n (cells p).next

-- `free`
abbrev pub free_cell : ℕ → ListState → ListState
free_cell p l = record l { is_allocated = λ q. if q == p then false else l.is_allocated q }

-- `list_remove` for an index that is not negative: the element, or NULL. The loop sets `prev` after
-- `curr`, so they are the same cell where it is unlinked.
unfoldable pub list_remove : ℕ → ListState → Option ℕ × ListState
unfolding list_is_empty list_size walk
list_remove index l =
    let curr = walk l.cells index l.first in
    let next = (l.cells curr).next in
    let prev = curr in
    let unlinked = if index == 0 then record l { first = next } else record l {
      cells = λ q. if q == prev then record (l.cells q) { next = next } else l.cells q;
    } in
    if list_is_empty l || leb (list_size l) index
    then (none, l)
    else (some (l.cells curr).element, free_cell curr (record unlinked { size = l.size - 1 }))

-- The loop of `list_get`, which also stops at the last cell.
unfoldable pub walk_until : (ℕ → ListNode) → ℕ → ℕ → ℕ
walk_until cells zero p = p
walk_until cells (suc n) p =
    let rest = walk_until cells n (cells p).next in if (cells p).next == 0 then p else rest

-- `list_get`
unfoldable pub list_get : ℕ → ListState → Option ℕ
unfolding list_is_empty list_size walk_until
list_get index l =
    if list_is_empty l || leb (list_size l) index
    then none
    else some (l.cells (walk_until l.cells index l.first)).element

-- The loop of `list_removeElem`, on fuel: the cell where it stops, and whether it has moved. It compares
-- what stands at NULL before it tests for NULL.
unfoldable pub find_cell : (ℕ → Bool) → (ℕ → ListNode) → ℕ → ℕ → Bool → Option (ℕ × Bool)
find_cell matches cells zero p moved = none
find_cell matches cells (suc fuel) p moved =
    let rest = find_cell matches cells fuel (cells p).next true in
    if not (matches (cells p).element) && not (p == 0) then rest else some (p, moved)

-- `list_removeElem`; here too `prev` is the cell that is removed. `none` means that the fuel ran out.
unfoldable pub list_remove_elem : ℕ → (ℕ → Bool) → ListState → Option (Bool × ListState)
unfolding list_is_empty find_cell
list_remove_elem fuel matches l =
    if list_is_empty l
    then some (false, l)
    else (elim (find_cell matches l.cells fuel l.first false) [
      | none ↦ none
      | some (curr, moved) ↦
          (let next = (l.cells curr).next in
            let unlinked =
              if moved
              then record l {
                cells = λ q. if q == curr then record (l.cells q) { next = next } else l.cells q;
              }
              else record l { first = next } in
            if curr == 0
            then some (false, l)
            else some (true, free_cell curr (record unlinked { size = l.size - 1 })))
    ])
