-- ===== src/Util/Semaphore.antt =====
-- src/util/semaphore.c: a count, and a ring of the processes that wait.
pub mod Counter
pub mod Refine
mod Tests
use so2c2011tp.Prelude.{
  ℕ, ◌+◌, ◌-◌, Bool, true, false, Option, none, some, List, replicate, ltb, get_or, set,
  if◌then◌else◌,
}
use so2c2011tp.Prelude.Int.{ℤ, pos, negsuc, ◌+ℤ◌, ◌-ℤ◌, ltb_ℤ}

abbrev pub max_wprocess : ℕ
max_wprocess = 5

-- `semaphore_t`; a pointer to a process is its pid, which a process keeps.
pub record Semaphore : Type 0 where
  pub count : ℤ
  pub wprocess : List ℕ
  pub first : ℕ
  pub free : ℕ

pub sem_init : ℤ → Semaphore
sem_init init_count = record {
  count = init_count;
  wprocess = replicate max_wprocess 0;
  first = 0;
  free = 0;
}

-- `if (i++ > MAX_WPROCESS-1) i = 0`, as both indices are moved on.
abbrev pub move_on : ℕ → ℕ
move_on i = if ltb (max_wprocess - 1) (i + 1) then 0 else i + 1

-- `sem_signal`: the process that is made ready, if there is one.
pub sem_signal : Semaphore → Option ℕ × Semaphore
sem_signal s =
    let raised = record s { count = s.count +ℤ pos 1 } in
    if ltb_ℤ s.count (pos 0)
    then (some (get_or s.wprocess s.first 0), record raised { first = move_on s.first })
    else (none, raised)

-- `sem_wait` by the current process: whether it is blocked.
pub sem_wait : ℕ → Semaphore → Bool × Semaphore
sem_wait pid s =
    let lowered = record s { count = s.count -ℤ pos 1 } in
    if ltb_ℤ lowered.count (pos 0)
    then (true, record lowered { wprocess = set s.wprocess s.free pid; free = move_on s.free })
    else (false, lowered)

pub sem_value : Semaphore → ℤ
sem_value s = s.count
