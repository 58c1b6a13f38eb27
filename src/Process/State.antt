-- ===== src/Process/State.antt =====
-- include/process/process.h: a process, and the table of them.
use so2c2011tp.Prelude.{ℕ, Bool, true, false, Option, none, some, List, get_or, set}
use so2c2011tp.Text.{Text}

pub data Status : Type 0 where
  blocked : Status
  ready : Status
  running : Status
  finalized : Status

-- `block_t`
pub data Wait : Type 0 where
  w_fifo : Wait
  w_input : Wait
  w_child : Wait
  w_sem : Wait
  w_login : Wait

abbrev pub is_blocked : Status → Bool
is_blocked s = elim s [ blocked ↦ true | _ ↦ false ]

abbrev pub is_finalized : Status → Bool
is_finalized s = elim s [ finalized ↦ true | _ ↦ false ]

abbrev pub max_processes : ℕ
max_processes = 32

-- `PROCESS`, without the table of open files. A `waiting` of none is the -1 of `waitingFlags`;
-- `foreground` is the groundness, and a priority of 0 is `PNONE`.
pub record Process : Type 0 where
  pub name : Text
  pub argv : List Text
  pub esp : ℕ
  pub stack_size : ℕ
  pub stack : ℕ
  pub pid : ℕ
  pub parent : ℕ
  pub foreground : Bool
  pub priority : ℕ
  pub status : Status
  pub last_called : ℕ
  pub waiting : Option Wait
  pub tty : ℕ

-- The pointer `current`: NULL, to the process of an entry, or to one that was freed, with what it held.
pub data Ref : Type 0 where
  null : Ref
  slot : ℕ → Ref
  freed : Process → Ref

-- The static variables of src/process/scheduler.c and the `nextPID` of src/process/process.c, an int
-- that is taken as its 32 bits; `fd` is the terminal that output goes to (`setFD`).
pub record Scheduler : Type 0 where
  pub all_process : List (Option Process)
  pub current : Ref
  pub use_priority : Bool
  pub count100 : ℕ
  pub last100 : List ℕ
  pub first_time : Bool
  pub next_pid : ℕ
  pub fd : ℕ

-- An entry of the table, and the object that a pointer refers to.
abbrev pub at_slot : List (Option Process) → ℕ → Option Process
at_slot all i = get_or all i none

abbrev pub deref : Scheduler → Option Process
deref st = elim st.current [ null ↦ none | slot i ↦ at_slot st.all_process i | freed p ↦ some p ]

abbrev pub change : (Process → Process) → List (Option Process) → ℕ → List (Option Process)
change f all i = elim (at_slot all i) [ none ↦ all | some p ↦ set all i (some (f p)) ]

-- An update through `current`.
abbrev pub change_current : (Process → Process) → Scheduler → Scheduler
change_current f st = elim st.current [
  | null ↦ st
  | slot i ↦ record st { all_process = change f st.all_process i }
  | freed p ↦ record st { current = freed (f p) }
]
