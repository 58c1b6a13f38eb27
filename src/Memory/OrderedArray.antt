-- ===== src/Memory/OrderedArray.antt =====
-- src/memory/ordered_array.c: an array that is kept in order. A loop over the array from `iterator` on
-- is a recursion over those cells, with the number of them that are in use.
pub mod Laws
mod Tests
use so2c2011tp.Prelude.{
  ℕ, zero, suc, ◌+◌, ◌-◌, Bool, true, false, Option, none, some, List, [], ◌∷◌, ltb, get_or,
  replicate, if◌then◌else◌,
}

-- `ordered_array_t`; the predicate `less_than` is an argument of the operations.
pub record OrderedArray : Type 0 where
  pub array : List ℕ
  pub size : ℕ
  pub max_size : ℕ

unfoldable pub standard_lessthan_predicate : ℕ → ℕ → Bool
standard_lessthan_predicate a b = ltb a b

-- `create_ordered_array` and `place_ordered_array` clear the storage.
pub create_ordered_array : ℕ → OrderedArray
create_ordered_array max_size = record {
  array = replicate max_size 0;
  size = 0;
  max_size = max_size;
}

-- The second loop of `insert_ordered_array`: each cell takes what the one before it held, up to the
-- first cell that is not in use.
pub shift : ℕ → List ℕ → ℕ → List ℕ
shift tmp [] n = []
shift tmp (x ∷ xs) zero = tmp ∷ xs
shift tmp (x ∷ xs) (suc n) = tmp ∷ shift x xs n

-- The first loop: past the cells that are less than the item.
pub insert_loop : (ℕ → ℕ → Bool) → ℕ → List ℕ → ℕ → List ℕ
insert_loop less_than item [] n = []
insert_loop less_than item (x ∷ xs) zero = item ∷ xs
insert_loop less_than item (x ∷ xs) (suc n) =
    let rest = insert_loop less_than item xs n in
    if less_than x item then x ∷ rest else shift item (x ∷ xs) (suc n)

pub insert_ordered_array : (ℕ → ℕ → Bool) → ℕ → OrderedArray → OrderedArray
insert_ordered_array less_than item a = record a {
  array = insert_loop less_than item a.array a.size;
  size = a.size + 1;
}

-- `lookup_ordered_array`; the assertion stops the kernel on an index that is not in use.
pub lookup_ordered_array : ℕ → OrderedArray → Option ℕ
lookup_ordered_array i a = if ltb i a.size then some (get_or a.array i 0) else none

-- The loop of `remove_ordered_array` from the index on: `n` cells take what the one after them held.
pub move_down : List ℕ → ℕ → List ℕ
move_down [] n = []
move_down (x ∷ xs) zero = x ∷ xs
move_down (x ∷ xs) (suc n) = get_or xs 0 0 ∷ move_down xs n

pub remove_loop : ℕ → List ℕ → ℕ → List ℕ
remove_loop zero xs n = move_down xs n
remove_loop (suc i) [] n = []
remove_loop (suc i) (x ∷ xs) n = x ∷ remove_loop i xs (n - 1)

pub remove_ordered_array : ℕ → OrderedArray → OrderedArray
remove_ordered_array i a = record a { array = remove_loop i a.array a.size; size = a.size - 1 }
