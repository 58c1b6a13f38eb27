-- ===== src/Process/Scheduler/Kill.antt =====
-- `kill` and `killChildren`: a process and all that it has started end.
use so2c2011tp.Prelude.{
  ℕ, zero, suc, subst, inl, inr, ◌∙◌, ◌+◌, ◌≡◌, refl, Bool, true, false, Option, none, some, List,
  ◌==◌, length, if◌then◌else◌, Bool-cases, Option-cases,
}
use so2c2011tp.Process.State.{Process, Status, ready, finalized, at_slot, change, max_processes}
use so2c2011tp.Process.Scheduler.{find_pid, with_status, set_status}
use so2c2011tp.Process.Scheduler.Table.{Keeps, change-Keeps, length-change}

abbrev Table : Type 0
Table = List (Option Process)

-- The turn of the loop of `killChildren` at entry `i`; `ends` is `kill`, none where it does not return.
child_turn : (ℕ → Table → Option Table) → ℕ → ℕ → Table → Option Table
child_turn ends pid i all = elim (at_slot all i) [
  | none ↦ some all
  | some p ↦ if p.parent == pid then ends p.pid all else some all
]

-- `killChildren`, over the `n` entries from `i` on.
kill_children : (ℕ → Table → Option Table) → ℕ → ℕ → ℕ → Table → Option Table
kill_children ends pid zero i all = some all
kill_children ends pid (suc n) i all = elim (child_turn ends pid i all) [
  | none ↦ none
  | some all' ↦ kill_children ends pid n (i + 1) all'
]

-- Behind `killChildren`, for a process `p` at entry `i`; true to go on with the loop.
kill_entry : Process → ℕ → Option Table → Option (Bool × Table)
kill_entry p i none = none
kill_entry p i (some all) =
    some (true, change (λ q. record q { status = finalized }) (set_status all p.parent ready) i)

-- The turn of the loop of `kill` at entry `i`; `kids` is `killChildren`. A process whose parent is 0 is
-- not killed, and ends the loop.
kill_turn : (Table → Option Table) → ℕ → ℕ → Table → Option (Bool × Table)
kill_turn kids pid i all = elim (at_slot all i) [
  | none ↦ some (true, all)
  | some p ↦
      if p.pid == pid
      then (if p.parent == 0 then some (false, all) else kill_entry p i (kids all))
      else some (true, all)
]

-- The loop of `kill`, over the `n` entries from `i` on.
kill_loop : (Table → Option Table) → ℕ → ℕ → ℕ → Table → Option Table
kill_loop kids pid zero i all = some all
kill_loop kids pid (suc n) i all = elim (kill_turn kids pid i all) [
  | none ↦ none
  | some (on, all') ↦ (elim on [ true ↦ kill_loop kids pid n (i + 1) all' | false ↦ some all' ])
]

-- `kill`, none where the calls are nested deeper than the fuel.
pub kill : ℕ → ℕ → Table → Option Table
kill zero pid all = none
kill (suc fuel) pid all =
    kill_loop (kill_children (kill fuel) pid max_processes 0) pid max_processes 0 all

-- The entries are those of before, with their pids.
abbrev pub Kept : Table → Table → Type 0
Kept all all' = (length all' ≡ length all) × Keeps all all'

abbrev KeptTurn : Table → Bool × Table → Type 0
KeptTurn all (on, all') = Kept all all'

Kept-refl : (all : Table) → Kept all all
Kept-refl all = (refl, λ i p h. (p, h, refl))

Kept-trans : (x y z : Table) → Kept x y → Kept y z → Kept x z
Kept-trans x y z (len, keeps) (len', keeps') = (
  len' ∙ len,
  λ i p h.
      (let (q, old, same) = keeps' i p h in
        let (r, older, same') = keeps i q old in (r, older, same' ∙ same)),
)

Kept-change :
    (f : Process → Process) (all : Table) (i : ℕ)
    → ((p : Process) → (f p).pid ≡ p.pid)
    → Kept all (change f all i)
Kept-change f all i same = (length-change f all i, change-Keeps f all i same)

Kept-set_status : (all : Table) (pid : ℕ) (s : Status) → Kept all (set_status all pid s)
unfolding set_status
Kept-set_status all pid s = elim (Option-cases (find_pid all pid 0)) [
  | inl absent ↦ rw (absent, set_status) (Kept-refl all)
  | inr (i, present) ↦ rw (present, set_status) (Kept-change (with_status s) all i (λ p. refl))
]

-- What holds of a result, if there is one.
abbrev Ends : {A : Type 0} → (A → Type 0) → Option A → Type 0
Ends P none = Unit
Ends P (some x) = P x

Kept-rest :
    (all all' : Table) (o : Option Table) → Kept all all' → Ends (Kept all') o → Ends (Kept all) o
Kept-rest all all' none k e = tt
Kept-rest all all' (some z) k e = Kept-trans all all' z k e

module _ (all : Table) (rest : Table → Option Table)
    (h : (all' : Table) → Ends (Kept all') (rest all')) where
  Kept-then :
      (o : Option Table)
      → Ends (Kept all) o
      → Ends (Kept all) (elim o [ none ↦ none | some all' ↦ rest all' ])
  Kept-then none e = tt
  Kept-then (some all') e = Kept-rest all all' (rest all') e (h all')

  Kept-unless :
      (o : Option (Bool × Table))
      → Ends (KeptTurn all) o
      → Ends (Kept all) (elim o [
        | none ↦ none
        | some (on, all') ↦ (elim on [ true ↦ rest all' | false ↦ some all' ])
      ])
  Kept-unless none e = tt
  Kept-unless (some (false, all')) e = e
  Kept-unless (some (true, all')) e = Kept-rest all all' (rest all') e (h all')

child_turn-Kept :
    (ends : ℕ → Table → Option Table) (pid i : ℕ) (all : Table)
    → ((pid : ℕ) (all : Table) → Ends (Kept all) (ends pid all))
    → Ends (Kept all) (child_turn ends pid i all)
unfolding child_turn
child_turn-Kept ends pid i all h = each (at_slot all i)
  where
    each :
        (o : Option Process)
        → Ends (Kept all) (elim o [
          | none ↦ some all
          | some p ↦ if p.parent == pid then ends p.pid all else some all
        ])
    each none = Kept-refl all
    each (some p) = elim (Bool-cases (p.parent == pid)) [
      | inl child ↦ rw child (h p.pid all)
      | inr other ↦ rw other (Kept-refl all)
    ]

kill_children-Kept :
    (ends : ℕ → Table → Option Table) (pid n i : ℕ) (all : Table)
    → ((pid : ℕ) (all : Table) → Ends (Kept all) (ends pid all))
    → Ends (Kept all) (kill_children ends pid n i all)
unfolding kill_children
kill_children-Kept ends pid zero i all h = Kept-refl all
kill_children-Kept ends pid (suc n) i all h =
    Kept-then all (kill_children ends pid n (i + 1))
      (λ all'. kill_children-Kept ends pid n (i + 1) all' h) (child_turn ends pid i all)
      (child_turn-Kept ends pid i all h)

kill_entry-Kept :
    (all : Table) (p : Process) (i : ℕ) (o : Option Table)
    → Ends (Kept all) o
    → Ends (KeptTurn all) (kill_entry p i o)
unfolding kill_entry
kill_entry-Kept all p i none e = tt
kill_entry-Kept all p i (some z) e = Kept-trans all z _ e (
    Kept-trans z (set_status z p.parent ready) _ (Kept-set_status z p.parent ready)
      (Kept-change (λ q. record q { status = finalized }) _ i (λ q. refl)))

kill_turn-Kept :
    (kids : Table → Option Table) (pid i : ℕ) (all : Table)
    → ((all : Table) → Ends (Kept all) (kids all))
    → Ends (KeptTurn all) (kill_turn kids pid i all)
unfolding kill_turn
kill_turn-Kept kids pid i all h = each (at_slot all i)
  where
    each :
        (o : Option Process)
        → Ends (KeptTurn all) (elim o [
          | none ↦ some (true, all)
          | some p ↦
              if p.pid == pid
              then (if p.parent == 0 then some (false, all) else kill_entry p i (kids all))
              else some (true, all)
        ])
    each none = Kept-refl all
    each (some p) = elim (Bool-cases (p.pid == pid)) [
      | inl same ↦ rw same (elim (Bool-cases (p.parent == 0)) [
        | inl tty ↦ rw tty (Kept-refl all)
        | inr child ↦ rw child (kill_entry-Kept all p i (kids all) (h all))
      ])
      | inr other ↦ rw other (Kept-refl all)
    ]

kill_loop-Kept :
    (kids : Table → Option Table) (pid n i : ℕ) (all : Table)
    → ((all : Table) → Ends (Kept all) (kids all))
    → Ends (Kept all) (kill_loop kids pid n i all)
unfolding kill_loop
kill_loop-Kept kids pid zero i all h = Kept-refl all
kill_loop-Kept kids pid (suc n) i all h =
    Kept-unless all (kill_loop kids pid n (i + 1))
      (λ all'. kill_loop-Kept kids pid n (i + 1) all' h) (kill_turn kids pid i all)
      (kill_turn-Kept kids pid i all h)

kill-Kept_all : (fuel pid : ℕ) (all : Table) → Ends (Kept all) (kill fuel pid all)
unfolding kill
kill-Kept_all zero pid all = tt
kill-Kept_all (suc fuel) pid all =
    kill_loop-Kept (kill_children (kill fuel) pid max_processes 0) pid max_processes 0 all
      (λ all. kill_children-Kept (kill fuel) pid max_processes 0 all (kill-Kept_all fuel))

-- Where `kill` returns, each process has its entry and its pid.
pub kill-Kept : (fuel pid : ℕ) (all all' : Table) → kill fuel pid all ≡ some all' → Kept all all'
kill-Kept fuel pid all all' e = subst (λ o. Ends (Kept all) o) e (kill-Kept_all fuel pid all)
