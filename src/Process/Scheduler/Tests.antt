-- ===== src/Process/Scheduler/Tests.antt =====
-- The scheduler with three processes in its table.
use so2c2011tp.Prelude.{◌≡◌, true, false, Option, none, some, List, [], ◌∷◌, map, arith}
use so2c2011tp.Process.State.{Process, Scheduler, ready, blocked}
use so2c2011tp.Process.Scheduler.{next_task, schedule, clean, get_next_process}
use so2c2011tp.Process.Scheduler.Next.{Chosen, passed, next_task_lem}
use so2c2011tp.Process.Scheduler.Table.{IsValid}
use so2c2011tp.Process.Scheduler.Reach.{
  Reaches, Reaches-IsValid, at_start, here, next, scheduling, switching, ending,
}

abbrev process : Process
process = record {
  name = 112 ∷ [];
  argv = [];
  esp = 9000;
  stack_size = 8192;
  stack = 4096;
  pid = 0;
  parent = 0;
  foreground = false;
  priority = 1;
  status = ready;
  last_called = 0;
  waiting = none;
  tty = 0;
}

abbrev others : List (Option Process)
others =
    some (record process { pid = 1; priority = 3 })
    ∷ none
    ∷ some (record process { pid = 2; status = blocked })
    ∷ []

next_task_lem_example :
    let (i, st') = next_task (record (at_start true) { all_process = some process ∷ others }) in
    Chosen true (some process ∷ others) i × (st'.all_process ≡ some process ∷ map passed others)
next_task_lem_example = next_task_lem (at_start true) (some process) others

-- Two processes are made, the scheduler switches to one, and it ends.
abbrev after : Scheduler
after = clean (get_next_process 77 (schedule process (schedule process (at_start true)))).1

Reaches_after : Reaches (at_start true) 2 after
Reaches_after =
    next (next (next (next here (scheduling process)) (scheduling process)) (switching 77)) ending

Reaches-IsValid_example : IsValid 2 after
Reaches-IsValid_example = Reaches-IsValid true 2 Reaches_after (omega arith)
