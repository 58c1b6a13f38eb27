-- ===== src/Process/Scheduler/Insert.antt =====
-- `schedule`: a process that comes into the table keeps it well formed.
use so2c2011tp.Prelude.{
  ℕ, ap, sym, ◌∙◌, ◌+◌, ◌^◌, ◌%◌, ◌<◌, ◌≡◌, ◌⊎◌, inl, inr, refl, ◌&&◌, Option, none, some, List,
  ltb, ◌==◌, set, get_or-set, length, length-set, arith, Bool-cases, Option-cases,
}
use so2c2011tp.Process.State.{Process, Scheduler, at_slot, w_child}
use so2c2011tp.Process.Scheduler.{free_slot, schedule}
use so2c2011tp.Process.Scheduler.Table.{IsValid}
use so2c2011tp.Process.Scheduler.Keep.{
  change_current-IsValid, block_current-IsValid, either-IsValid,
}

some-injective : {p q : Process} → some p ≡ some q → p ≡ q
some-injective {p = p} e = ap (λ o. elim o [ none ↦ p | some r ↦ r ]) e

-- A new process has a pid that no other has.
placed_or_old :
    (all : List (Option Process)) (k : ℕ) (new : Process) (i : ℕ) (p : Process)
    → at_slot (set all k (some new)) i ≡ some p
    → ((i ≡ k) × (p.pid ≡ new.pid)) ⊎ (at_slot all i ≡ some p)
placed_or_old all k new i p h = elim (Bool-cases ((k == i) && ltb i (length all))) [
  | inl here ↦ inl (
    ground (arith, here),
    ap (λ r. r.pid)
        (sym (
          some-injective {p = new} {q = p}
            (ground (arith, here, get_or-set all k i (some new) none, h)))),
  )
  | inr away ↦ inr (ground (arith, away, get_or-set all k i (some new) none, h))
]

place-IsValid :
    (made : ℕ) (st : Scheduler) (k : ℕ) (new : Process)
    → IsValid made st
    → made + 1 < 2 ^ 32
    → new.pid ≡ st.next_pid
    → IsValid (made + 1) (record st {
      all_process = set st.all_process k (some new);
      next_pid = (st.next_pid + 1) % 2 ^ 32;
    })
place-IsValid made st k new v small e =
    let more : (st.next_pid + 1) % 2 ^ 32 ≡ st.next_pid + 1 = omega (arith, v.pids, small) in
    record {
      pids = omega (arith, v.pids, more);
      entries = length-set st.all_process k (some new) ∙ v.entries;
      below = λ i p h. elim (placed_or_old st.all_process k new i p h) [
        | inl (_, same) ↦ omega (arith, same, e, more)
        | inr old ↦ omega (arith, v.below i p old, more)
      ];
      unique = λ i j p q h h' same. elim (placed_or_old st.all_process k new i p h) [
        | inl (ik, pe) ↦ (elim (placed_or_old st.all_process k new j q h') [
          | inl (jk, qe) ↦ ik ∙ sym jk
          | inr old ↦ absurd (omega (arith, pe, e, same, v.below j q old))
        ])
        | inr old ↦ (elim (placed_or_old st.all_process k new j q h') [
          | inl (jk, qe) ↦ absurd (omega (arith, qe, e, same, v.below i p old))
          | inr old' ↦ v.unique i j p q old old' same
        ])
      ];
    }

-- One more process may have been made.
weaken-IsValid : (made : ℕ) (st : Scheduler) → IsValid made st → IsValid (made + 1) st
weaken-IsValid made st v = record {
  pids = omega (arith, v.pids);
  entries = v.entries;
  below = v.below;
  unique = v.unique;
}

-- As long as the pid does not wrap.
pub schedule-IsValid :
    (made : ℕ) (new : Process) (st : Scheduler)
    → made + 1 < 2 ^ 32
    → IsValid made st
    → IsValid (made + 1) (schedule new st)
unfolding schedule
schedule-IsValid made new st small v = elim (Option-cases (free_slot st.all_process 0)) [
  | inl full ↦ rw (full, schedule) (weaken-IsValid made st v)
  | inr (k, free) ↦
      (let p : IsValid (made + 1) _ = place-IsValid made st k _ v small refl in
        rw (free, schedule)
          (either-IsValid new.foreground _ _
            (block_current-IsValid w_child _
              (change_current-IsValid (λ q. record q { last_called = 0 }) _ (λ q. refl) p))
            p))
]
