-- ===== src/Util/CircularBuffer/Tests.antt =====
use so2c2011tp.Prelude.{◌≡◌, refl, true, false, List, [], ◌∷◌, arith}
use so2c2011tp.Prelude.Int.{pos}
use so2c2011tp.Util.CircularBuffer.{CBuffer, next_index, add, get, clear}
use so2c2011tp.Util.CircularBuffer.Queue
use so2c2011tp.Util.CircularBuffer.Queue.{Op, put, take, reset}
use so2c2011tp.Util.CircularBuffer.Inv.{IsValid}
use so2c2011tp.Util.CircularBuffer.Refine.{run, run_refines}

-- 8, then 9, round the end of the storage
abbrev wrapped : CBuffer
wrapped = record {
  buffer = 9 ∷ 7 ∷ 8 ∷ [];
  size = 3;
  read_pos = pos 1;
  write_pos = pos 0;
  count = 2;
}

abbrev script : List Op
script = put 1 ∷ put 2 ∷ take ∷ take ∷ put 5 ∷ reset ∷ take ∷ put 6 ∷ take ∷ []

wrapped-IsValid : IsValid wrapped
wrapped-IsValid = omega arith

run-wrapped :
    run wrapped script
    ≡ (true, 1)
      ∷ (false, 2)
      ∷ (true, 8)
      ∷ (true, 9)
      ∷ (true, 5)
      ∷ (true, 0)
      ∷ (true, 0)
      ∷ (true, 6)
      ∷ (true, 6)
      ∷ []
unfolding run add get clear next_index
run-wrapped = refl

run_refines_example : run wrapped script ≡ Queue.run 3 (8 ∷ 9 ∷ []) script
run_refines_example = run_refines script wrapped wrapped-IsValid
