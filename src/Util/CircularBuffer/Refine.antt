-- ===== src/Util/CircularBuffer/Refine.antt =====
-- The ring against the bounded queue of the characters that it holds.
use so2c2011tp.Prelude.{ℕ, ◌≡◌, refl, Bool, true, List, [], ◌∷◌, arith}
use so2c2011tp.Util.Cells.{cells, length-cells, cells_split, cells-set}
use so2c2011tp.Util.CircularBuffer.{CBuffer, add, get, clear}
use so2c2011tp.Util.CircularBuffer.Queue
use so2c2011tp.Util.CircularBuffer.Queue.{Queue, Op, put, take, reset}
use so2c2011tp.Util.CircularBuffer.Inv.{
  IsValid, next, next_index_lem, next-lt, add-IsValid, get-IsValid, clear-IsValid,
}

-- The characters that a ring holds, oldest first.
abbrev pub contents : CBuffer → Queue
contents b = cells b.buffer b.size (next b.read_pos b.size) b.count

-- `circularBuffer_add` answers as the queue of `size` places, and the ring then holds that queue.
pub add_refines :
    (b : CBuffer) (c : ℕ)
    → IsValid b
    → let (done, b') = add b c in (done, contents b') ≡ Queue.push b.size (contents b) c
unfolding add Queue.push
add_refines b c v = ground (
  arith,
  next_index_lem b.write_pos b.size v.write_in,
  next-lt b.read_pos b.size v.some_room,
  length-cells b.buffer b.size (next b.read_pos b.size) b.count,
  cells-set b.buffer b.size c b.count (next b.read_pos b.size) (next b.write_pos b.size),
)

-- `circularBuffer_get` returns the oldest character, or NUL, and leaves the rest.
pub get_refines :
    (b : CBuffer) → IsValid b → let (c, b') = get b in (c, contents b') ≡ Queue.pop (contents b)
unfolding get Queue.pop
get_refines b v = ground (
  arith,
  next_index_lem b.read_pos b.size v.read_in,
  cells_split b.buffer b.size (next b.read_pos b.size) b.count,
)

size-add : (b : CBuffer) (c : ℕ) → (add b c).1.size ≡ b.size
unfolding add
size-add b c = ground arith

size-get : (b : CBuffer) → (get b).1.size ≡ b.size
unfolding get
size-get b = ground arith

-- A client's calls in order, with what it sees of each.
unfoldable pub run : CBuffer → List Op → List (Bool × ℕ)
run b [] = []
run b (put c ∷ ops) = let (done, b') = add b c in (done, c) ∷ run b' ops
run b (take ∷ ops) = let (c, b') = get b in (true, c) ∷ run b' ops
run b (reset ∷ ops) = (true, 0) ∷ run (clear b) ops

clear_refines : (b : CBuffer) → (contents (clear b) ≡ []) × ((clear b).size ≡ b.size)
unfolding clear
clear_refines b = (refl, refl)

-- In whatever order a client adds, gets and clears, a valid ring answers as the bounded queue.
pub run_refines :
    (ops : List Op) (b : CBuffer) → IsValid b → run b ops ≡ Queue.run b.size (contents b) ops
unfolding run Queue.run
run_refines [] b v = refl
run_refines (put c ∷ ops) b v =
    rw (run_refines ops (add b c).1 (add-IsValid b c v), ← add_refines b c v, size-add)
run_refines (take ∷ ops) b v =
    rw (run_refines ops (get b).1 (get-IsValid b v), ← get_refines b v, size-get)
run_refines (reset ∷ ops) b v =
    rw (run_refines ops (clear b) (clear-IsValid b v), (clear_refines b).0, (clear_refines b).1)
