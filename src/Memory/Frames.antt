-- ===== src/Memory/Frames.antt =====
-- src/memory/frame.c: the bitset of the frames of physical memory, and the frame of a page.
pub mod Digits
pub mod Laws
pub mod Pages
mod Tests
use so2c2011tp.Prelude.{
  ℕ, zero, suc, ◌+◌, ◌-◌, ◌*◌, ◌/◌, ◌%◌, ◌^◌, Bool, Option, none, some, List, [], ◌∷◌, ◌==◌,
  if◌then◌else◌, set, get_or,
}

-- The bit `1 << j` of a word, and the word with it set or cleared, digit by digit.
unfoldable pub digit : ℕ → ℕ → ℕ
digit w zero = w % 2
digit w (suc j) = digit (w / 2) j

unfoldable pub or_digit : ℕ → ℕ → ℕ
or_digit w zero = w / 2 * 2 + 1
or_digit w (suc j) = w % 2 + or_digit (w / 2) j * 2

unfoldable pub and_not_digit : ℕ → ℕ → ℕ
and_not_digit w zero = w / 2 * 2
and_not_digit w (suc j) = w % 2 + and_not_digit (w / 2) j * 2

-- `frames[INDEX_FROM_BIT(frame)]`
abbrev pub word_of : List ℕ → ℕ → ℕ
word_of frames frame = get_or frames (frame / 32) 0

unfoldable pub set_frame : List ℕ → ℕ → List ℕ
set_frame frames addr =
    let frame = addr / 0x1000 in
    set frames (frame / 32) (or_digit (word_of frames frame) (frame % 32))

unfoldable pub clear_frame : List ℕ → ℕ → List ℕ
clear_frame frames addr =
    let frame = addr / 0x1000 in
    set frames (frame / 32) (and_not_digit (word_of frames frame) (frame % 32))

unfoldable pub test_frame : List ℕ → ℕ → ℕ
test_frame frames addr =
    let frame = addr / 0x1000 in digit (word_of frames frame) (frame % 32) * 2 ^ (frame % 32)

-- The inner loop of `first_frame`: the first free bit of a word from `j` on, of which `n` are left.
unfoldable pub free_digit : ℕ → ℕ → ℕ → Option ℕ
free_digit zero j w = none
free_digit (suc n) j w =
    let rest = free_digit n (j + 1) w in if digit w j == 0 then some j else rest

-- The outer loop, from word `i` on, of which `n` are left.
unfoldable pub first_from : ℕ → ℕ → List ℕ → Option ℕ
unfolding free_digit
first_from zero i frames = none
first_from (suc n) i frames =
    let w = get_or frames i 0 in
    let rest = first_from n (i + 1) frames in
    if w == 0xFFFFFFFF
    then rest
    else (elim (free_digit 32 0 w) [ none ↦ rest | some j ↦ some (i * 32 + j) ])

-- `first_frame`; `none` is the result -1.
unfoldable pub first_frame : List ℕ → ℕ → Option ℕ
unfolding first_from
first_frame frames nframes = first_from (nframes / 32) 0 frames

-- `page_t`, the fields that frame.c sets.
pub record Page : Type 0 where
  pub present : ℕ
  pub rw : ℕ
  pub user : ℕ
  pub frame : ℕ

-- `alloc_frame`; `none` means that no frame is free, where the kernel halts.
unfoldable pub alloc_frame : List ℕ → ℕ → Page → ℕ → Option (Page × List ℕ)
alloc_frame frames nframes page is_writeable =
    if page.frame == 0
    then (elim (first_frame frames nframes) [
      | none ↦ none
      | some idx ↦ some (
        record {
          present = 1;
          rw = if is_writeable == 0 then 0 else 1;
          user = 0;
          frame = idx % 2 ^ 20;
        },
        set_frame frames (idx * 0x1000 % 2 ^ 32),
      )
    ])
    else some (page, frames)

-- `free_frame` passes the number of the frame where an address is expected.
unfoldable pub free_frame : List ℕ → Page → Page × List ℕ
free_frame frames page =
    if page.frame == 0
    then (page, frames)
    else (record page { frame = 0 }, clear_frame frames page.frame)
