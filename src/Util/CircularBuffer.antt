-- ===== src/Util/CircularBuffer.antt =====
-- src/util/circularBuffer.c: the byte ring that holds a terminal's keyboard input.
-- A function that updates `*buffer` returns the new ring, beside its result if it has one.
pub mod Queue
pub mod Inv
pub mod Refine
mod Tests
use so2c2011tp.Prelude.{
  ℕ, zero, suc, ◌+◌, ◌-◌, ◌%◌, Bool, true, false, List, replicate, get_or, set, ◌==◌, if◌then◌else◌,
}
use so2c2011tp.Prelude.Int.{ℤ, pos, negsuc}

-- `c_buffer_t`. The positions are C ints: they start at -1.
pub record CBuffer : Type 0 where
  pub buffer : List ℕ
  pub size : ℕ
  pub read_pos : ℤ
  pub write_pos : ℤ
  pub count : ℕ

-- -1
abbrev pub before_first : ℤ
before_first = negsuc 0

-- What `malloc` leaves in the storage is of no account: it is written before it is read.
pub init : ℕ → CBuffer
init buffer_size = record {
  buffer = replicate buffer_size 0;
  size = buffer_size;
  read_pos = before_first;
  write_pos = before_first;
  count = 0;
}

pub is_empty : CBuffer → Bool
is_empty b = b.count == 0

pub is_full : CBuffer → Bool
is_full b = b.count == b.size

-- `(current + 1) % size`: the remainder of a negative int is not positive.
pub next_index : ℤ → ℕ → ℤ
next_index (pos n) size = pos ((n + 1) % size)
next_index (negsuc zero) size = pos 0
next_index (negsuc (suc n)) size =
    let r = (n + 1) % size in if r == 0 then pos 0 else negsuc (r - 1)

-- An index into `buffer`; a negative one is none of its cells.
abbrev pub read_at : List ℕ → ℤ → ℕ
read_at xs (pos i) = get_or xs i 0
read_at xs (negsuc _) = 0

abbrev pub write_at : List ℕ → ℤ → ℕ → List ℕ
write_at xs (pos i) c = set xs i c
write_at xs (negsuc _) c = xs

pub add : CBuffer → ℕ → Bool × CBuffer
unfolding is_full
add b c =
    if is_full b
    then (false, b)
    else (let w = next_index b.write_pos b.size in
        (true, record b { count = b.count + 1; write_pos = w; buffer = write_at b.buffer w c }))

pub get : CBuffer → ℕ × CBuffer
unfolding is_empty
get b =
    if is_empty b
    then (0, b)
    else (let r = next_index b.read_pos b.size in
        (read_at b.buffer r, record b { count = b.count - 1; read_pos = r }))

pub clear : CBuffer → CBuffer
clear b = record b { read_pos = before_first; write_pos = before_first; count = 0 }

-- It returns the capacity.
pub count_of : CBuffer → ℕ
count_of b = b.size
