-- ===== src/Process/Scheduler/Keep.antt =====
-- Each operation of the scheduler on the processes that it holds keeps the table well formed.
use so2c2011tp.Prelude.{
  ℕ, zero, suc, ap, subst, sym, ◌∙◌, ◌+◌, ◌<◌, ◌≡◌, inl, inr, refl, Bool, true, false, ◌&&◌, Option,
  none, some, List, [], ◌∷◌, ◌==◌, length, length-map, map, if◌then◌else◌, arith, Bool-cases,
  Option-cases,
}
use so2c2011tp.Process.State.{
  Process, Status, Wait, Ref, Scheduler, null, slot, freed, at_slot, change, change_current, deref,
  running, ready, finalized, blocked, is_blocked,
}
use so2c2011tp.Process.Scheduler.{
  find_pid, get_process, with_status, set_status, free_slot, block_current, clean, signal_from,
  set_priority, next_task, get_next_process, resume, check_stack, save_esp,
}
use so2c2011tp.Process.Scheduler.Next.{passed, scan-passed}
use so2c2011tp.Process.Scheduler.Table.{
  IsValid, Keeps, Keeps-IsValid, change-Keeps, length-change, passed-Keeps,
}

-- A step of the scheduler keeps the table well formed.
abbrev Same : Scheduler → Scheduler → Type 0
Same st st' =
    (length st'.all_process ≡ length st.all_process) × Keeps st.all_process st'.all_process

Same-IsValid :
    {made : ℕ} (st st' : Scheduler)
    → IsValid made st
    → st'.next_pid ≡ st.next_pid
    → Same st st'
    → IsValid made st'
Same-IsValid st st' v e s = Keeps-IsValid st st' v (s.0 ∙ v.entries) (omega (arith, e)) s.1

change-IsValid :
    {made : ℕ} (f : Process → Process) (st : Scheduler) (i : ℕ)
    → ((p : Process) → (f p).pid ≡ p.pid)
    → IsValid made st
    → IsValid made (record st { all_process = change f st.all_process i })
change-IsValid f st i same v =
    Same-IsValid st _ v refl
      (length-change f st.all_process i, change-Keeps f st.all_process i same)

-- The table alone decides.
table-IsValid :
    {made : ℕ} (st st' : Scheduler)
    → st'.all_process ≡ st.all_process
    → st'.next_pid ≡ st.next_pid
    → IsValid made st
    → IsValid made st'
table-IsValid st st' e n v =
    Same-IsValid st st' v n (ap length e, λ i p h. (p, sym (ap (λ all. at_slot all i) e) ∙ h, refl))

pub change_current-IsValid :
    {made : ℕ} (f : Process → Process) (st : Scheduler)
    → ((p : Process) → (f p).pid ≡ p.pid)
    → IsValid made st
    → IsValid made (change_current f st)
change_current-IsValid {made = made} f st same v = each st.current
  where
    each :
        (c : Ref)
        → IsValid made (elim c [
          | null ↦ st
          | slot i ↦ record st { all_process = change f st.all_process i }
          | freed p ↦ record st { current = freed (f p) }
        ])
    each null = v
    each (slot i) = change-IsValid f st i same v
    each (freed p) = table-IsValid st _ refl refl v

pub set_status-IsValid :
    {made : ℕ} (st : Scheduler) (pid : ℕ) (s : Status)
    → IsValid made st
    → IsValid made (record st { all_process = set_status st.all_process pid s })
unfolding set_status
set_status-IsValid st pid s v = elim (Option-cases (find_pid st.all_process pid 0)) [
  | inl absent ↦ rw (absent, set_status) v
  | inr (i, present) ↦ rw (present, set_status) (change-IsValid (with_status s) st i (λ p. refl) v)
]

pub clean-IsValid : {made : ℕ} (st : Scheduler) → IsValid made st → IsValid made (clean st)
unfolding clean
clean-IsValid {made = made} st v =
    let ended = change_current (λ p. record p { status = finalized }) st in
    let v' : IsValid made ended =
      change_current-IsValid (λ p. record p { status = finalized }) st (λ p. refl) v in
    elim (Option-cases (deref ended)) [
      | inl nothing ↦ rw (nothing, clean) v'
      | inr (p, it) ↦ rw (it, clean) (set_status-IsValid ended p.parent ready v')
    ]

pub signal_from-IsValid :
    {made : ℕ} (waits : Wait → Bool) (n i : ℕ) (st : Scheduler)
    → IsValid made st
    → IsValid made (record st { all_process = signal_from waits n i st.all_process })
unfolding signal_from
signal_from-IsValid {made = made} waits zero i st v = v
signal_from-IsValid {made = made} waits (suc n) i st v =
    signal_from-IsValid waits n (i + 1) (record st { all_process = _ })
      (each (at_slot st.all_process i))
  where
    woken : Process → Bool
    woken p = is_blocked p.status && elim p.waiting [ none ↦ false | some w ↦ waits w ]

    each :
        (o : Option Process)
        → IsValid made (record st {
          all_process = elim o [
            | none ↦ st.all_process
            | some p ↦ if woken p then set_status st.all_process p.pid ready else st.all_process
          ];
        })
    each none = v
    each (some p) = elim (Bool-cases (woken p)) [
      | inl yes_it ↦ rw yes_it (set_status-IsValid st p.pid ready v)
      | inr not_it ↦ rw not_it v
    ]

free_slot-none :
    (all : List (Option Process)) (i n : ℕ)
    → free_slot all i ≡ some n
    → (k : ℕ) × (n ≡ i + k) × (k < length all) × (at_slot all k ≡ none)
unfolding free_slot
free_slot-none [] i n e = cc
free_slot-none (none ∷ es) i n e =
    (0, sym (ap (λ o. elim o [ none ↦ n | some r ↦ r ]) e) ∙ omega arith, omega arith, refl)
free_slot-none (some p ∷ es) i n e =
    let (k, place, hk, free) = free_slot-none es (i + 1) n e in
    (suc k, omega (arith, place), omega (arith, hk), free)

pub set_priority-IsValid :
    {made : ℕ} (st : Scheduler) (pid priority : ℕ)
    → IsValid made st
    → IsValid made (set_priority st pid priority).1
unfolding set_priority
set_priority-IsValid st pid priority v = elim (Option-cases (get_process st pid)) [
  | inl absent ↦ rw (absent, set_priority) v
  | inr (i, present) ↦
      rw (present, set_priority)
        (elim (Bool-cases ((pid == 0) && (priority == 0))) [
          | inl refused ↦ rw refused v
          | inr allowed ↦
              rw allowed (change-IsValid (λ p. record p { priority = priority }) st i (λ p. refl) v)
        ])
]

pub block_current-IsValid :
    {made : ℕ} (w : Wait) (st : Scheduler) → IsValid made st → IsValid made (block_current w st)
unfolding block_current
block_current-IsValid w st v =
    change_current-IsValid (λ p. record p { status = blocked; waiting = some w }) st (λ p. refl) v

cons-Keeps : (e : Option Process) (es : List (Option Process)) → Keeps (e ∷ es) (e ∷ map passed es)
cons-Keeps e es zero p' h = (p', h, refl)
cons-Keeps e es (suc i) p' h = passed-Keeps es i p' h

next_task-IsValid : {made : ℕ} (st : Scheduler) → IsValid made st → IsValid made (next_task st).1
unfolding next_task
next_task-IsValid {made = made} st v = each st.all_process refl
  where
    each :
        (all : List (Option Process))
        → all ≡ st.all_process
        → IsValid made (next_task (record st { all_process = all })).1
    each [] e = absurd (omega (arith, v.entries, ap length e))
    each (e ∷ es) eq =
        let st' = next_task (record st { all_process = e ∷ es }) in
        let through =
          scan-passed st.use_priority es 1 (record { best_score = 0; next_ready = none }) in
        Same-IsValid (record st { all_process = e ∷ es }) st'.1 (table-IsValid st _ eq refl v) refl
          (
            ap suc (ap length through ∙ length-map es passed),
            subst (λ xs. Keeps (e ∷ es) (e ∷ xs)) (sym through) (cons-Keeps e es),
          )

save_esp-pid : (old_esp : ℕ) (p : Process) → (check_stack (save_esp old_esp p)).pid ≡ p.pid
unfolding check_stack save_esp
save_esp-pid old_esp p = ground arith

resume-IsValid :
    {made : ℕ} (i : ℕ) (st : Scheduler) → IsValid made st → IsValid made (resume i st).1
unfolding resume
resume-IsValid i st v = elim (Option-cases (at_slot st.all_process i)) [
  | inl nothing ↦ rw (nothing, resume) (table-IsValid st _ refl refl v)
  | inr (p, it) ↦ rw (it, resume) (table-IsValid st _ refl refl v)
]

pub either-IsValid :
    {made : ℕ} (b : Bool) (x y : Scheduler)
    → IsValid made x
    → IsValid made y
    → IsValid made (if b then x else y)
either-IsValid true x y vx vy = vx
either-IsValid false x y vx vy = vy

pub get_next_process-IsValid :
    {made : ℕ} (old_esp : ℕ) (st : Scheduler)
    → IsValid made st
    → IsValid made (get_next_process old_esp st).1
unfolding get_next_process
get_next_process-IsValid {made = made} old_esp st v =
    let i = (next_task st).0 in
    let s2 = record (next_task st).1 {
      all_process =
          change (λ p. record p { status = running; last_called = 0 }) (next_task st).1.all_process
            i;
    } in
    let v2 : IsValid made s2 =
      change-IsValid (λ p. record p { status = running; last_called = 0 }) (next_task st).1 i
        (λ p. refl) (next_task-IsValid st v) in
    resume-IsValid i _ (
      either-IsValid st.first_time _ _ (table-IsValid s2 _ refl refl v2) (
        change_current-IsValid (λ p. check_stack (save_esp old_esp p)) s2 (save_esp-pid old_esp)
          v2))
