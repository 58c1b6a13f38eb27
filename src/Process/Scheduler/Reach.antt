-- ===== src/Process/Scheduler/Reach.antt =====
-- The states of the scheduler that the operations lead to.
use so2c2011tp.Prelude.{
  ℕ, zero, suc, subst, ◌∙◌, ◌+◌, ◌^◌, ◌<◌, ◌≡◌, ◌≢◌, refl, Bool, true, Option, none, some, List,
  replicate, arith,
}
use so2c2011tp.Process.State.{Process, Status, Wait, Scheduler, null, at_slot, max_processes}
use so2c2011tp.Process.Scheduler.{
  set_status, schedule, block_current, clean, signal, set_priority, get_next_process,
}
use so2c2011tp.Process.Scheduler.Table.{IsValid, Keeps-IsValid}
use so2c2011tp.Process.Scheduler.Kill.{kill, Kept, kill-Kept}
use so2c2011tp.Process.Scheduler.Keep.{
  set_status-IsValid, clean-IsValid, signal_from-IsValid, set_priority-IsValid,
  block_current-IsValid, get_next_process-IsValid,
}
use so2c2011tp.Process.Scheduler.Insert.{schedule-IsValid}

-- What the rest of the kernel does to the scheduler, one call at a time, with the number of processes
-- that the call may make.
pub data Step : ℕ → Scheduler → Scheduler → Type 0 where
  scheduling : (new : Process) {st : Scheduler} → Step 1 st (schedule new st)
  switching : (old_esp : ℕ) {st : Scheduler} → Step 0 st (get_next_process old_esp st).1
  setting :
      (pid : ℕ) (s : Status) {st : Scheduler}
      → Step 0 st (record st { all_process = set_status st.all_process pid s })
  blocking : (w : Wait) {st : Scheduler} → Step 0 st (block_current w st)
  ending : {st : Scheduler} → Step 0 st (clean st)
  killing :
      (fuel pid : ℕ) {st : Scheduler} (all' : List (Option Process))
      → kill fuel pid st.all_process ≡ some all'
      → Step 0 st (record st { all_process = all' })
  signalling : (waits : Wait → Bool) {st : Scheduler} → Step 0 st (signal waits st)
  prioritising : (pid priority : ℕ) {st : Scheduler} → Step 0 st (set_priority st pid priority).1

-- The table alone has changed.
Kept-IsValid :
    {made : ℕ} (st : Scheduler) (all' : List (Option Process))
    → Kept st.all_process all'
    → IsValid made st
    → IsValid made (record st { all_process = all' })
Kept-IsValid st all' (len, keeps) v =
    Keeps-IsValid st (record st { all_process = all' }) v (len ∙ v.entries) refl keeps

quiet-IsValid : (made : ℕ) (st : Scheduler) → IsValid made st → IsValid (made + 0) st
quiet-IsValid made st v = subst (λ n. IsValid n st) {x = made} {y = made + 0} (omega arith) v

Step-IsValid :
    {made k : ℕ} {st st' : Scheduler}
    → Step k st st'
    → made + k < 2 ^ 31
    → IsValid made st
    → IsValid (made + k) st'
unfolding signal
Step-IsValid {made = made} {st = st} (scheduling new) h v =
    schedule-IsValid made new st (omega (arith, h)) v
Step-IsValid {made = made} {st = st} (switching old_esp) h v =
    quiet-IsValid made _ (get_next_process-IsValid old_esp st v)
Step-IsValid {made = made} {st = st} (setting pid s) h v =
    quiet-IsValid made _ (set_status-IsValid st pid s v)
Step-IsValid {made = made} {st = st} (blocking w) h v =
    quiet-IsValid made _ (block_current-IsValid w st v)
Step-IsValid {made = made} {st = st} ending h v = quiet-IsValid made _ (clean-IsValid st v)
Step-IsValid {made = made} {st = st} (killing fuel pid all' e) h v =
    quiet-IsValid made _ (Kept-IsValid st all' (kill-Kept fuel pid st.all_process all' e) v)
Step-IsValid {made = made} {st = st} (signalling waits) h v =
    quiet-IsValid made _ (signal_from-IsValid waits max_processes 0 st v)
Step-IsValid {made = made} {st = st} (prioritising pid priority) h v =
    quiet-IsValid made _ (set_priority-IsValid st pid priority v)

-- The states that calls lead to, with the number of calls that make a process.
pub data Reaches (st : Scheduler) : ℕ → Scheduler → Type 0 where
  here : Reaches st 0 st
  next :
      {n k : ℕ} {st' st'' : Scheduler}
      → Reaches st n st'
      → Step k st' st''
      → Reaches st (n + k) st''

-- The state before the first process.
abbrev pub at_start : Bool → Scheduler
at_start with_priority = record {
  all_process = replicate max_processes none;
  current = null;
  use_priority = with_priority;
  count100 = 0;
  last100 = replicate 100 0;
  first_time = true;
  next_pid = 0;
  fd = 0;
}

none_at_start : (n i : ℕ) → at_slot (replicate n none) i ≡ none
none_at_start zero i = refl
none_at_start (suc n) zero = refl
none_at_start (suc n) (suc i) = none_at_start n i

at_start-IsValid : (with_priority : Bool) → IsValid 0 (at_start with_priority)
at_start-IsValid with_priority = record {
  pids = omega arith;
  entries = refl;
  below = λ i p h. absurd (empty i p h);
  unique = λ i j p q h. absurd (empty i p h);
}
  where
    empty : (i : ℕ) (p : Process) → at_slot (replicate 32 none) i ≢ some p
    empty i p h = cc (none_at_start 32 i, h)

-- In every state reached from the start, whatever processes are scheduled, switched, woken, blocked,
-- killed, ended, signalled or given a priority, as long as fewer than 2 ^ 31 processes are scheduled,
-- the table has its thirty-two entries, no two of them hold the same pid, and every pid is below the
-- next one, which is at most the number of processes scheduled.
pub Reaches-IsValid :
    (with_priority : Bool) (n : ℕ) {st : Scheduler}
    → Reaches (at_start with_priority) n st
    → n < 2 ^ 31
    → IsValid n st
Reaches-IsValid with_priority n here h = at_start-IsValid with_priority
Reaches-IsValid with_priority m (next {n = n} {k = k} r s) h =
    Step-IsValid s h (Reaches-IsValid with_priority n r (omega (arith, h)))
