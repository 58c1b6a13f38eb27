-- ===== src/Process/Scheduler/Table.antt =====
-- The table of processes: no pid stands in it twice.
use so2c2011tp.Prelude.{
  ℕ, zero, suc, ap, sym, ◌∙◌, ◌+◌, ◌<◌, ◌≤◌, ◌≡◌, ◌≢◌, inl, inr, refl, Option, none, some, List, [],
  ◌∷◌, ◌==◌, ==_iff, get_or-set_self, get_or-set_ne, length, length-set, map, if◌then◌else◌, arith,
  Bool-cases, Option-cases,
}
use so2c2011tp.Process.State.{Process, Status, Scheduler, at_slot, change}
use so2c2011tp.Process.Scheduler.{find_pid, with_status, set_status}
use so2c2011tp.Process.Scheduler.Next.{passed}

-- How the search for a pid ends.
pub data Found (all : List (Option Process)) (pid i : ℕ) : Option ℕ → Type 0 where
  absent : ((j : ℕ) (p : Process) → at_slot all j ≡ some p → p.pid ≢ pid) → Found all pid i none
  present :
      (k n : ℕ)
      → n ≡ i + k
      → (p : Process) → at_slot all k ≡ some p
      → p.pid ≡ pid
      → Found all pid i (some n)

some-injective : {p q : Process} → some p ≡ some q → p ≡ q
some-injective {p = p} e = ap (λ o. elim o [ none ↦ p | some r ↦ r ]) e

module _ (e : Option Process) (es : List (Option Process)) (pid i : ℕ) where
  Found-cons :
      {r : Option ℕ}
      → ((p : Process) → e ≡ some p → p.pid ≢ pid)
      → Found es pid (i + 1) r
      → Found (e ∷ es) pid i r
  Found-cons other (absent none_here) = absent each
    where
      each : (j : ℕ) (p : Process) → at_slot (e ∷ es) j ≡ some p → p.pid ≢ pid
      each zero p h = other p h
      each (suc j) p h = none_here j p h
  Found-cons other (present k n place p h same) = present (suc k) n (omega arith) p h same

find_pid-Found : (all : List (Option Process)) (pid i : ℕ) → Found all pid i (find_pid all pid i)
unfolding find_pid
find_pid-Found [] pid i = absent (λ j p h. cc)
find_pid-Found (none ∷ es) pid i =
    Found-cons none es pid i (λ p h. cc) (find_pid-Found es pid (i + 1))
find_pid-Found (some p ∷ es) pid i = elim (Bool-cases (p.pid == pid)) [
  | inl same ↦ rw same (present 0 i (omega arith) p refl ((==_iff _ _).0 same))
  | inr other ↦ rw other (
      Found-cons (some p) es pid i
        (λ q h e. ground (arith, other, e, ap (λ r. r.pid) (some-injective h)))
        (find_pid-Found es pid (i + 1)))
]

pub in_range :
    (all : List (Option Process)) (i : ℕ) {p : Process} → at_slot all i ≡ some p → i < length all
in_range [] i h = cc
in_range (e ∷ es) zero h = omega arith
in_range (e ∷ es) (suc i) h = omega (arith, in_range es i h)

abbrev pub changed : (Process → Process) → Option Process → Option Process
changed f none = none
changed f (some p) = some (f p)

-- An update of one entry.
pub change_lem :
    (f : Process → Process) (all : List (Option Process)) (i j : ℕ)
    → at_slot (change f all i) j ≡ (if i == j then changed f (at_slot all j) else at_slot all j)
change_lem f all i j = elim (Bool-cases (i == j)) [
  | inl same ↦
      (let e = (==_iff i j).0 same in
        rw (same, ← e)
          (elim (Option-cases (at_slot all i)) [
            | inl free ↦ rw (free, change) free
            | inr (p, used) ↦
                rw (used, change) (get_or-set_self all i (some (f p)) none (in_range all i used))
          ]))
  | inr other ↦ rw other (elim (Option-cases (at_slot all i)) [
    | inl free ↦ rw (free, change)
    | inr (p, used) ↦
        rw (used, change)
          (get_or-set_ne all {i = i} {j = j} (some (f p)) none (ground (arith, other)))
  ])
]

pub length-change :
    (f : Process → Process) (all : List (Option Process)) (i : ℕ)
    → length (change f all i) ≡ length all
length-change f all i = elim (Option-cases (at_slot all i)) [
  | inl free ↦ rw (free, change)
  | inr (p, used) ↦ rw (used, change) (length-set all i (some (f p)))
]

-- The table with no pid twice, when at most `made` processes were ever made.
pub record IsValid (made : ℕ) (st : Scheduler) : Type 0 where
  pub pids : st.next_pid ≤ made
  pub entries : length st.all_process ≡ 32
  pub below : (i : ℕ) (p : Process) → at_slot st.all_process i ≡ some p → p.pid < st.next_pid
  pub unique :
      (i j : ℕ) (p q : Process)
      → at_slot st.all_process i ≡ some p
      → at_slot st.all_process j ≡ some q
      → p.pid ≡ q.pid
      → i ≡ j

-- Each process of the new table was in the old one, in its place.
abbrev pub Keeps : List (Option Process) → List (Option Process) → Type 0
Keeps all all' =
    (i : ℕ) (p' : Process)
    → at_slot all' i ≡ some p'
    → (p : Process) × (at_slot all i ≡ some p) × (p.pid ≡ p'.pid)

pub Keeps-IsValid :
    {made : ℕ} (st st' : Scheduler)
    → IsValid made st
    → length st'.all_process ≡ 32
    → st.next_pid ≡ st'.next_pid
    → Keeps st.all_process st'.all_process
    → IsValid made st'
Keeps-IsValid st st' v full more keeps = record {
  pids = omega (arith, v.pids, more);
  entries = full;
  below =
      λ i p' h. (let (p, old, same) = keeps i p' h in omega (arith, v.below i p old, same, more));
  unique = λ i j p' q' h k e.
      (let (p, old, same) = keeps i p' h in
        let (q, old', same') = keeps j q' k in v.unique i j p q old old' (same ∙ e ∙ sym same'));
}

pub change-Keeps :
    (f : Process → Process) (all : List (Option Process)) (i : ℕ)
    → ((p : Process) → (f p).pid ≡ p.pid)
    → Keeps all (change f all i)
change-Keeps f all i same j p' h = elim (Bool-cases (i == j)) [
  | inl here ↦ changed_some (at_slot all j) (ground (arith, here, sym (change_lem f all i j) ∙ h))
  | inr away ↦ (p', ground (arith, away, sym (change_lem f all i j) ∙ h), refl)
]
  where
    changed_some :
        (o : Option Process)
        → changed f o ≡ some p'
        → (p : Process) × (o ≡ some p) × (p.pid ≡ p'.pid)
    changed_some none e = cc
    changed_some (some p) e = (p, refl, sym (same p) ∙ ap (λ r. r.pid) (some-injective e))

-- The processes with a pid get the status, and wait for nothing.
abbrev pub status_of : ℕ → Status → Process → Process
status_of pid s p = if p.pid == pid then with_status s p else p

untouched :
    (pid : ℕ) (s : Status) (o : Option Process)
    → ((p : Process) → o ≡ some p → p.pid ≢ pid)
    → o ≡ changed (status_of pid s) o
untouched pid s none other = refl
untouched pid s (some p) other = elim (Bool-cases (p.pid == pid)) [
  | inl hit ↦ absurd (other p refl ((==_iff _ _).0 hit))
  | inr miss ↦ rw miss
]

touched :
    (pid : ℕ) (s : Status) (p : Process)
    → p.pid ≡ pid
    → some (with_status s p) ≡ some (status_of pid s p)
touched pid s p same = rw ((==_iff p.pid pid).1 same)

-- In a table with no pid twice, `scheduler_setStatus` changes exactly the process with that pid.
pub set_status_lem :
    {made : ℕ} (st : Scheduler) (pid : ℕ) (s : Status)
    → IsValid made st
    → (j : ℕ)
    → at_slot (set_status st.all_process pid s) j
      ≡ changed (status_of pid s) (at_slot st.all_process j)
unfolding set_status
set_status_lem st pid s v j = at_each (find_pid-Found st.all_process pid 0)
  where
    all : List (Option Process)
    all = st.all_process

    at_each :
        {r : Option ℕ}
        → Found all pid 0 r
        → at_slot (elim r [ none ↦ all | some i ↦ change (with_status s) all i ]) j
          ≡ changed (status_of pid s) (at_slot all j)
    at_each (absent other) = untouched pid s (at_slot all j) (other j)
    at_each (present k n place p h same) =
        let e : n ≡ k = omega (arith, place) in
        rw (e, change_lem (with_status s) all k j)
          (elim (Bool-cases (k == j)) [
            | inl here ↦ rw (here, ← (==_iff k j).0 here, h) (touched pid s p same)
            | inr away ↦ rw away (
                untouched pid s (at_slot all j)
                  (λ q k' e'. ground (arith, away, v.unique k j p q h k' (same ∙ sym e'))))
          ])

pub passed-Keeps : (es : List (Option Process)) → Keeps es (map passed es)
passed-Keeps [] i p' h = cc
passed-Keeps (e ∷ es) (suc i) p' h = passed-Keeps es i p' h
passed-Keeps (none ∷ es) zero p' h = cc
passed-Keeps (some p ∷ es) zero p' h = (p, refl, ground (arith, ap (λ o. changed_pid o) h))
  where
    changed_pid : Option Process → ℕ
    changed_pid none = p.pid
    changed_pid (some q) = q.pid
