-- ===== src/Process/Scheduler.antt =====
-- src/process/scheduler.c: which process runs next.
pub mod Next
pub mod Table
pub mod Keep
pub mod Insert
pub mod Kill
pub mod Reach
mod Tests
use so2c2011tp.Prelude.{
  ℕ, zero, suc, ◌+◌, ◌-◌, ◌*◌, ◌/◌, ◌%◌, ◌^◌, Bool, true, false, not, ◌&&◌, Option, none, some,
  List, [], ◌∷◌, ltb, ◌==◌, get_or, set, length, if◌then◌else◌,
}
use so2c2011tp.Text.{Text}
use so2c2011tp.Process.State.{
  Process, Status, blocked, ready, running, finalized, Wait, w_child, is_blocked, is_finalized, Ref,
  null, slot, freed, Scheduler, at_slot, deref, change, change_current, max_processes,
}

-- The score of a process whose `lastCalled` was just increased.
pub score : Bool → Process → ℕ
score with_priority p =
    let temp = if with_priority then p.priority * 2 + p.last_called else p.last_called in
    if p.priority == 0 then temp / 5 else temp

-- What the loop of `_nextTask` keeps: `best` and `next_ready`.
pub record Best : Type 0 where
  pub best_score : ℕ
  pub next_ready : Option ℕ

pub can_run : Process → Bool
can_run p = not (is_blocked p.status) && not (p.priority == 0)

abbrev pub called : Process → Process
called p = record p { last_called = p.last_called + 1 }

-- One turn of the loop, at entry `i`: the new entry and the best so far.
pub visit : Bool → Option Process → ℕ → Best → Option Process × Best
visit with_priority none i b = (none, b)
visit with_priority (some p) i b =
    if is_finalized p.status
    then (none, b)
    else (if can_run p
        then (
          some (called p),
          if ltb b.best_score (score with_priority (called p))
              then record { best_score = score with_priority (called p); next_ready = some i }
              else b,
        )
        else (some p, b))

-- The loop, over the entries from `i` on.
pub scan : Bool → List (Option Process) → ℕ → Best → List (Option Process) × Best
scan with_priority [] i b = ([], b)
scan with_priority (e ∷ es) i b =
    let (e', b') = visit with_priority e i b in
    let (rest, last) = scan with_priority es (i + 1) b' in (e' ∷ rest, last)

-- A pointer to a process that the loop frees is left as it is.
pub after_scan : List (Option Process) → Ref → Ref
after_scan all null = null
after_scan all (freed p) = freed p
after_scan all (slot i) = elim (at_slot all i) [
  | none ↦ slot i
  | some p ↦ if is_finalized p.status && not (i == 0) then freed p else slot i
]

-- `_nextTask`: the entry chosen, with `last100` updated. Entry 0 is the idle process.
pub next_task : Scheduler → ℕ × Scheduler
next_task st =
    let idle : List (Option Process) = elim st.all_process [ [] ↦ [] | e ∷ _ ↦ e ∷ [] ] in
    let others : List (Option Process) = elim st.all_process [ [] ↦ [] | _ ∷ es ↦ es ] in
    let (scanned, b) =
      scan st.use_priority others 1 (record { best_score = 0; next_ready = none }) in
    let all : List (Option Process) = elim idle [ [] ↦ scanned | e ∷ _ ↦ e ∷ scanned ] in
    let chosen : ℕ = elim b.next_ready [ none ↦ 0 | some i ↦ i ] in
    let count = (st.count100 + 1) % 100 in
    let pid : ℕ = elim (at_slot all chosen) [ none ↦ 0 | some p ↦ p.pid ] in
    (
      chosen,
      record st {
        all_process = all;
        current = after_scan st.all_process st.current;
        count100 = count;
        last100 = set st.last100 count pid;
      },
    )

-- The first entry of a pid, from `i` on.
pub find_pid : List (Option Process) → ℕ → ℕ → Option ℕ
find_pid [] pid i = none
find_pid (none ∷ es) pid i = find_pid es pid (i + 1)
find_pid (some p ∷ es) pid i =
    let rest = find_pid es pid (i + 1) in if p.pid == pid then some i else rest

-- `scheduler_getProcess`
pub get_process : Scheduler → ℕ → Option ℕ
get_process st pid = find_pid st.all_process pid 0

abbrev pub with_status : Status → Process → Process
with_status s p = record p { status = s; waiting = none }

-- `scheduler_setStatus`
pub set_status : List (Option Process) → ℕ → Status → List (Option Process)
set_status all pid s = elim (find_pid all pid 0) [
  | none ↦ all
  | some i ↦ change (with_status s) all i
]

-- `scheduler_blockCurrent`, up to the system call that yields.
pub block_current : Wait → Scheduler → Scheduler
block_current w st = change_current (λ p. record p { status = blocked; waiting = some w }) st

-- `clean`, where a process ends: it is finalized, and its parent is woken.
pub clean : Scheduler → Scheduler
clean st =
    let ended = change_current (λ p. record p { status = finalized }) st in
    elim (deref ended) [
      | none ↦ ended
      | some p ↦ record ended { all_process = set_status ended.all_process p.parent ready }
    ]

-- `scheduler_activeProcesses`
pub active_processes : List (Option Process) → ℕ
active_processes [] = 0
active_processes (none ∷ es) = active_processes es
active_processes (some p ∷ es) =
    if is_blocked p.status then active_processes es else suc (active_processes es)

-- The loop of `scheduler_schedule` that looks for a free entry.
pub free_slot : List (Option Process) → ℕ → Option ℕ
free_slot [] i = none
free_slot (none ∷ es) i = some i
free_slot (some p ∷ es) i = free_slot es (i + 1)

-- `scheduler_schedule`; `made` is what `process_initialize` makes of the caller's arguments, its pid
-- and parent apart.
pub schedule : Process → Scheduler → Scheduler
schedule made st = elim (free_slot st.all_process 0) [
  | none ↦ st
  | some i ↦
      (let parent : ℕ = elim (deref st) [ none ↦ 0 | some p ↦ p.pid ] in
        let new = record made {
          pid = st.next_pid;
          parent = parent;
          last_called = 0;
          waiting = none;
        } in
        let placed = record st {
          all_process = set st.all_process i (some new);
          next_pid = (st.next_pid + 1) % 2 ^ 32;
        } in
        if made.foreground
        then block_current w_child (change_current (λ p. record p { last_called = 0 }) placed)
        else placed)
]

-- `signal`, over the `n` entries from `i` on: each process that waits for the event is made ready.
pub signal_from : (Wait → Bool) → ℕ → ℕ → List (Option Process) → List (Option Process)
signal_from waits zero i all = all
signal_from waits (suc n) i all = signal_from waits n (i + 1) (elim (at_slot all i) [
  | none ↦ all
  | some p ↦
      if is_blocked p.status && elim p.waiting [ none ↦ false | some w ↦ waits w ]
      then set_status all p.pid ready
      else all
])

pub signal : (Wait → Bool) → Scheduler → Scheduler
signal waits st = record st { all_process = signal_from waits max_processes 0 st.all_process }

-- `setPriority`: false where the code returns -1.
pub set_priority : Scheduler → ℕ → ℕ → Bool × Scheduler
set_priority st pid priority = elim (get_process st pid) [
  | none ↦ (false, st)
  | some i ↦ if (pid == 0) && (priority == 0) then (false, st) else (
    true,
    record st { all_process = change (λ p. record p { priority = priority }) st.all_process i },
  )
]

-- `saveESP`
pub save_esp : ℕ → Process → Process
save_esp old_esp p = if is_finalized p.status then p else record p { esp = old_esp }

-- `process_checkStack`: a stack that is nearly full grows by a page.
pub check_stack : Process → Process
check_stack p =
    if ltb p.esp (p.stack + 0x750)
    then record p { stack = p.stack - 4096; stack_size = p.stack_size + 4096 }
    else p

-- The end of `getNextProcess`: entry `i` becomes the current one.
pub resume : ℕ → Scheduler → ℕ × Scheduler
resume i st = elim (at_slot st.all_process i) [
  | none ↦ (0, record st { current = slot i })
  | some p ↦ (p.esp, record st { current = slot i; fd = p.tty })
]

-- `getNextProcess`: the stack pointer to go on with. The pages that `scheduler_setCurrent` makes
-- present or absent are not part of the state.
pub get_next_process : ℕ → Scheduler → ℕ × Scheduler
get_next_process old_esp st =
    let (i, s1) = next_task st in
    let s2 = record s1 {
      all_process = change (λ p. record p { status = running; last_called = 0 }) s1.all_process i;
    } in
    let s3 =
      if st.first_time
      then record s2 { first_time = false }
      else change_current (λ p. check_stack (save_esp old_esp p)) s2 in
    resume i s3
