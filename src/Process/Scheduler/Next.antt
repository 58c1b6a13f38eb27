-- ===== src/Process/Scheduler/Next.antt =====
-- Which entry `_nextTask` chooses, and what it does to the others.
use so2c2011tp.Prelude.{
  ℕ, zero, suc, ap, subst, ◌+◌, ◌*◌, ◌==◌, ◌<◌, ◌≤◌, ◌≡◌, inl, inr, refl, Bool, true, false, not,
  Option, none, some, List, [], ◌∷◌, ltb, length, map, if◌then◌else◌, arith, Bool-cases,
}
use so2c2011tp.Process.State.{
  Process, Status, blocked, ready, running, finalized, is_finalized, Scheduler, at_slot,
}
use so2c2011tp.Process.Scheduler.{score, Best, can_run, called, visit, scan, next_task}

-- Whether a process may be chosen, by its status and its priority alone: the process that runs and
-- one that is ready may, unless the priority is 0, the one of a process that does not run.
pub may_run : Status → ℕ → Bool
may_run blocked priority = false
may_run finalized priority = false
may_run running priority = not (priority == 0)
may_run ready priority = not (priority == 0)

-- How far a process is up: the turns that it has waited, this one included, and twice its priority
-- where priorities count. It is 0 for a process that may not be chosen.
abbrev pub rank : Bool → Option Process → ℕ
rank with_priority none = 0
rank with_priority (some p) =
    if may_run p.status p.priority
    then (if with_priority then p.last_called + 1 + 2 * p.priority else p.last_called + 1)
    else 0

-- An entry after the loop has passed: a finalized process is freed, and one that may run has waited
-- for one turn more.
abbrev pub passed : Option Process → Option Process
passed none = none
passed (some p) =
    if may_run p.status p.priority
    then some (record p { last_called = p.last_called + 1 })
    else (if is_finalized p.status then none else some p)

-- The code's score of a process that may be chosen is its rank.
score_lem :
    (with_priority : Bool) (p : Process)
    → (p.priority == 0) ≡ false
    → score with_priority (called p)
      ≡ (if with_priority then p.last_called + 1 + 2 * p.priority else p.last_called + 1)
unfolding score
score_lem true p e = ground (arith, e)
score_lem false p e = ground (arith, e)

visit-some :
    (with_priority : Bool) (p : Process) (i : ℕ) (b : Best)
    → visit with_priority (some p) i b ≡ (
      passed (some p),
      if ltb b.best_score (rank with_priority (some p))
          then record { best_score = rank with_priority (some p); next_ready = some i }
          else b,
    )
unfolding visit can_run may_run
visit-some with_priority p i b = elim (Bool-cases (p.priority == 0)) [
  | inl none_p ↦
      each p.status (λ e. ground (arith, e, none_p)) (λ e. ground (arith, e, none_p))
        (λ e. ground (arith, e, none_p)) (λ e. ground (arith, e, none_p))
  | inr some_p ↦
      each p.status (λ e. ground (arith, e, some_p)) (λ e. ground (arith, e, some_p))
        (λ e. rw (score_lem with_priority p some_p) (ground (arith, e, some_p)))
        (λ e. rw (score_lem with_priority p some_p) (ground (arith, e, some_p)))
]
  where
    each :
        {A : Type 0} (s : Status)
        → (s ≡ blocked → A)
        → (s ≡ finalized → A)
        → (s ≡ running → A)
        → (s ≡ ready → A)
        → A
    each blocked b f r y = b refl
    each finalized b f r y = f refl
    each running b f r y = r refl
    each ready b f r y = y refl

visit_lem :
    (with_priority : Bool) (e : Option Process) (i : ℕ) (b : Best)
    → visit with_priority e i b ≡ (
      passed e,
      if ltb b.best_score (rank with_priority e)
          then record { best_score = rank with_priority e; next_ready = some i }
          else b,
    )
unfolding visit
visit_lem with_priority none i b = ground arith
visit_lem with_priority (some p) i b = visit-some with_priority p i b

pub scan-passed :
    (with_priority : Bool) (es : List (Option Process)) (i : ℕ) (b : Best)
    → (scan with_priority es i b).0 ≡ map passed es
unfolding scan
scan-passed with_priority [] i b = refl
scan-passed with_priority (e ∷ es) i b =
    rw (visit_lem with_priority e i b, scan-passed with_priority es (i + 1))

-- How the loop ends: no entry beats what was the best before, or the first entry of the highest rank
-- is the best.
data Leads (with_priority : Bool) (es : List (Option Process)) (i : ℕ) (b : Best)
    : Best → Type 0 where
  kept : ((j : ℕ) → rank with_priority (at_slot es j) ≤ b.best_score) → Leads with_priority es i b b
  beaten :
      (k n : ℕ)
      → n ≡ i + k
      → k < length es
      → b.best_score < rank with_priority (at_slot es k)
      → ((j : ℕ) → rank with_priority (at_slot es j) ≤ rank with_priority (at_slot es k))
      → ((j : ℕ) → j < k → rank with_priority (at_slot es j) < rank with_priority (at_slot es k))
      → Leads with_priority es i b
          (record { best_score = rank with_priority (at_slot es k); next_ready = some n })

module _ (wp : Bool) (e : Option Process) (es : List (Option Process)) where
  all_of_cons :
      (x : ℕ)
      → rank wp e ≤ x
      → ((j : ℕ) → rank wp (at_slot es j) ≤ x)
      → (j : ℕ) → rank wp (at_slot (e ∷ es) j) ≤ x
  all_of_cons x h all zero = h
  all_of_cons x h all (suc j) = all j

  first_of_cons :
      (x k : ℕ)
      → rank wp e < x
      → ((j : ℕ) → j < k → rank wp (at_slot es j) < x)
      → (j : ℕ) → j < suc k
      → rank wp (at_slot (e ∷ es) j) < x
  first_of_cons x k h first zero p = h
  first_of_cons x k h first (suc j) p = first j (omega arith)

  Leads-loser :
      (i : ℕ) (b : Best) {r : Best}
      → rank wp e ≤ b.best_score
      → Leads wp es (i + 1) b r
      → Leads wp (e ∷ es) i b r
  Leads-loser i b h (kept all) = kept (all_of_cons b.best_score h all)
  Leads-loser i b h (beaten k n place hk up most first) =
      let top = rank wp (at_slot es k) in
      beaten (suc k) n (omega arith) (omega arith) up (all_of_cons top (omega arith) most)
        (first_of_cons top k (omega arith) first)

  Leads-winner :
      (i : ℕ) (b : Best) {r : Best}
      → b.best_score < rank wp e
      → Leads wp es (i + 1) (record { best_score = rank wp e; next_ready = some i }) r
      → Leads wp (e ∷ es) i b r
  Leads-winner i b h (kept all) =
      beaten 0 i (omega arith) (omega arith) h (all_of_cons (rank wp e) (omega arith) all)
        (λ j p. absurd (omega arith))
  Leads-winner i b h (beaten k n place hk up most first) =
      let top = rank wp (at_slot es k) in
      beaten (suc k) n (omega arith) (omega arith) (omega arith)
        (all_of_cons top (omega arith) most) (first_of_cons top k up first)

scan-cons :
    (wp : Bool) (e : Option Process) (es : List (Option Process)) (i : ℕ) (b : Best)
    → ((b' : Best) → Leads wp es (i + 1) b' (scan wp es (i + 1) b').1)
    → Leads wp (e ∷ es) i b (scan wp es (i + 1) (visit wp e i b).1).1
scan-cons wp e es i b rest =
    rw (visit_lem wp e i b) (elim (Bool-cases (ltb b.best_score (rank wp e))) [
      | inl up ↦ rw up (Leads-winner wp e es i b (ground (arith, up)) (rest _))
      | inr down ↦ rw down (Leads-loser wp e es i b (ground (arith, down)) (rest b))
    ])

scan-Leads :
    (wp : Bool) (es : List (Option Process)) (i : ℕ) (b : Best) → Leads wp es i b (scan wp es i b).1
unfolding scan
scan-Leads wp [] i b = kept (λ j. omega arith)
scan-Leads wp (e ∷ es) i b = scan-cons wp e es i b (scan-Leads wp es (i + 1))

-- Whom `_nextTask` chooses among the entries after the first.
pub data Chosen (wp : Bool) (all : List (Option Process)) : ℕ → Type 0 where
  idle : ((j : ℕ) → 0 < j → rank wp (at_slot all j) ≡ 0) → Chosen wp all 0
  task :
      (k : ℕ)
      → 0 < k
      → k < length all
      → 0 < rank wp (at_slot all k)
      → ((j : ℕ) → 0 < j → rank wp (at_slot all j) ≤ rank wp (at_slot all k))
      → ((j : ℕ) → 0 < j → j < k → rank wp (at_slot all j) < rank wp (at_slot all k))
      → Chosen wp all k

Chosen-best :
    (wp : Bool) (e : Option Process) (es : List (Option Process)) {r : Best}
    → Leads wp es 1 (record { best_score = 0; next_ready = none }) r
    → Chosen wp (e ∷ es) (elim r.next_ready [ none ↦ 0 | some i ↦ i ])
Chosen-best wp e es (kept all) = idle none_up
  where
    none_up : (j : ℕ) → 0 < j → rank wp (at_slot (e ∷ es) j) ≡ 0
    none_up zero p = absurd (omega arith)
    none_up (suc j) p = omega (arith, all j)
Chosen-best wp e es (beaten k n place hk up most first) =
    subst (λ i. Chosen wp (e ∷ es) i) {x = suc k} {y = n} (omega arith)
      (task (suc k) (omega arith) (omega arith) up behind before)
  where
    behind : (j : ℕ) → 0 < j → rank wp (at_slot (e ∷ es) j) ≤ rank wp (at_slot es k)
    behind zero p = absurd (omega arith)
    behind (suc j) p = most j

    before : (j : ℕ) → 0 < j → j < suc k → rank wp (at_slot (e ∷ es) j) < rank wp (at_slot es k)
    before zero p q = absurd (omega arith)
    before (suc j) p q = first j (omega arith)

-- `_nextTask` passes over the table, in which entry 0 is the idle process: it frees the finalized
-- processes and counts one turn for each that may run. A process may run unless it is
-- blocked or finalized or has no priority. The choice is the first of those that have the highest
-- score, which is the turns that they have waited, this one included, and twice their priority where
-- priorities count; or entry 0 if none may run.
pub next_task_lem :
    (st : Scheduler) (e : Option Process) (es : List (Option Process))
    → let (i, st') = next_task (record st { all_process = e ∷ es }) in
      Chosen st.use_priority (e ∷ es) i × (st'.all_process ≡ e ∷ map passed es)
unfolding next_task
next_task_lem st e es = (
  Chosen-best st.use_priority e es
      (scan-Leads st.use_priority es 1 (record { best_score = 0; next_ready = none })),
  ap (λ xs. e ∷ xs)
      (scan-passed st.use_priority es 1 (record { best_score = 0; next_ready = none })),
)
