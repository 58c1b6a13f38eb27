-- ===== src/Util/CircularBuffer/Queue.antt =====
-- A queue of at most `cap` characters, oldest first: what a client may expect of the ring.
use so2c2011tp.Prelude.{ℕ, Bool, true, false, List, [], ◌∷◌, ◌++◌, length, ltb, if◌then◌else◌}

abbrev pub Queue : Type 0
Queue = List ℕ

pub data Op : Type 0 where
  put : ℕ → Op
  take : Op
  reset : Op

unfoldable pub push : ℕ → Queue → ℕ → Bool × Queue
push cap q c = if ltb (length q) cap then (true, q ++ (c ∷ [])) else (false, q)

-- An empty queue yields the character NUL.
unfoldable pub pop : Queue → ℕ × Queue
pop [] = (0, [])
pop (c ∷ q) = (c, q)

-- What the client sees of each call: a status and a character.
unfoldable pub run : ℕ → Queue → List Op → List (Bool × ℕ)
run cap q [] = []
run cap q (put c ∷ ops) = let (done, q') = push cap q c in (done, c) ∷ run cap q' ops
run cap q (take ∷ ops) = let (c, q') = pop q in (true, c) ∷ run cap q' ops
run cap q (reset ∷ ops) = (true, 0) ∷ run cap [] ops
