-- ===== src/Memory/Frames/Tests.antt =====
-- A bitset of four words of which the first is full.
use so2c2011tp.Prelude.{ℕ, ◌≡◌, refl, List, [], ◌∷◌, arith, some}
use so2c2011tp.Memory.Frames.{Page, digit, alloc_frame, free_frame, first_frame}
use so2c2011tp.Memory.Frames.Laws.{used}
use so2c2011tp.Memory.Frames.Pages.{Given, alloc_frame_lem, free_frame_leaks}

abbrev bitset : List ℕ
bitset = 0xFFFFFFFF ∷ 5 ∷ 0 ∷ 0 ∷ []

abbrev no_frame : Page
no_frame = record { present = 0; rw = 0; user = 0; frame = 0 }

-- The first free bit is bit 1 of word 1.
first_frame_of_bitset : first_frame bitset 128 ≡ some 33
unfolding first_frame digit
first_frame_of_bitset = refl

alloc_frame_lem_example : Given bitset 128 1 (alloc_frame bitset 128 no_frame 1)
alloc_frame_lem_example = alloc_frame_lem bitset 128 no_frame 1 refl (omega arith) (omega arith)

free_frame_leaks_example :
    ((free_frame bitset (record no_frame { frame = 34 })).0.frame ≡ 0)
    × (used (free_frame bitset (record no_frame { frame = 34 })).1 34 ≡ used bitset 34)
free_frame_leaks_example =
    free_frame_leaks bitset (record no_frame { frame = 34 }) (omega arith) (omega arith)
