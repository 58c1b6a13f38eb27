-- ===== src/Util/Semaphore/Refine.antt =====
-- The semaphore against its promise, while no more wait than the ring has cells.
use so2c2011tp.Prelude.{
  ℕ, zero, suc, ◌+◌, ◌%◌, ◌<◌, ◌≤◌, ◌≡◌, refl, ap, ◌∙◌, true, false, none, some, List, length,
  length-set, get_or, set, arith,
}
use so2c2011tp.Prelude.Int.{ℤ, pos, negsuc, pos_part, neg_part, ◌+ℤ◌, ◌-ℤ◌}
use so2c2011tp.Util.Cells.{cells, cells-set}
use so2c2011tp.Util.Semaphore.{Semaphore, move_on, sem_signal, sem_wait}
use so2c2011tp.Util.Semaphore.Counter.{Counter, release, acquire}

pub record IsValid (s : Semaphore) : Type 0 where
  pub room : length s.wprocess ≡ 5
  pub first_in : s.first < 5
  pub few : neg_part s.count ≤ 5
  pub behind : s.free ≡ (s.first + neg_part s.count) % 5

-- The free units, and those who wait, the one that came first in front.
abbrev pub counter : Semaphore → Counter
counter s = record {
  value = pos_part s.count;
  waiting = cells s.wprocess 5 s.first (neg_part s.count);
}

abbrev queue : List ℕ → Counter
queue ps = record { value = 0; waiting = ps }

abbrev sem : ℤ → List ℕ → ℕ → ℕ → Semaphore
sem count wprocess first free = record {
  count = count;
  wprocess = wprocess;
  first = first;
  free = free;
}

move_on_lem : (i : ℕ) → i < 5 → move_on i ≡ (i + 1) % 5
move_on_lem i h = ground arith

-- Raising and lowering the count.
raise : ℕ → ℤ
raise zero = pos 0
raise (suc m) = negsuc m

pos_up : (n : ℕ) → pos n +ℤ pos 1 ≡ pos (n + 1)
unfolding ◌+ℤ◌
pos_up n = ground arith

neg_up : (n : ℕ) → negsuc n +ℤ pos 1 ≡ raise n
unfolding ◌+ℤ◌ raise
neg_up zero = refl
neg_up (suc m) = ground arith

pos_down : (n : ℕ) → pos (suc n) -ℤ pos 1 ≡ pos n
unfolding ◌-ℤ◌
pos_down n = ground arith

neg_down : (n : ℕ) → negsuc n -ℤ pos 1 ≡ negsuc (suc n)
unfolding ◌-ℤ◌
neg_down n = ground arith

module _ (w : List ℕ) (f e : ℕ) where
  signal_pos : (n : ℕ) → sem_signal (sem (pos n) w f e) ≡ (none, sem (pos (n + 1)) w f e)
  unfolding sem_signal
  signal_pos n = rw (pos_up n) (ground arith)

  signal_neg :
      (n : ℕ)
      → f < 5
      → sem_signal (sem (negsuc n) w f e) ≡ (some (get_or w f 0), sem (raise n) w ((f + 1) % 5) e)
  unfolding sem_signal
  signal_neg n h = rw (neg_up n, move_on_lem f h) (ground arith)

  wait_pos : (p n : ℕ) → sem_wait p (sem (pos (suc n)) w f e) ≡ (false, sem (pos n) w f e)
  unfolding sem_wait
  wait_pos p n = rw (pos_down n) (ground arith)

  wait_zero :
      (p : ℕ)
      → e < 5
      → sem_wait p (sem (pos 0) w f e) ≡ (true, sem (negsuc 0) (set w e p) f ((e + 1) % 5))
  unfolding sem_wait ◌-ℤ◌
  wait_zero p h = rw (move_on_lem e h) refl

  wait_neg :
      (p n : ℕ)
      → e < 5
      → sem_wait p (sem (negsuc n) w f e) ≡ (true, sem (negsuc (suc n)) (set w e p) f ((e + 1) % 5))
  unfolding sem_wait
  wait_neg p n h = rw (neg_down n, move_on_lem e h) (ground arith)

-- `sem_signal` answers as the promise, with the process that came first, and the semaphore is valid.
pub sem_signal_refines :
    (s : Semaphore)
    → IsValid s
    → let (woken, s') = sem_signal s in ((woken, counter s') ≡ release (counter s)) × IsValid s'
unfolding release raise
sem_signal_refines s v = each s.count v
  where
    each :
        (c : ℤ)
        → IsValid (sem c s.wprocess s.first s.free)
        → let (woken, s') = sem_signal (sem c s.wprocess s.first s.free) in
          ((woken, counter s') ≡ release (counter (sem c s.wprocess s.first s.free))) × IsValid s'
    each (pos n) w =
        rw (signal_pos s.wprocess s.first s.free n)
          (refl, record { room = w.room; first_in = w.first_in; few = w.few; behind = w.behind })
    each (negsuc zero) w = rw (signal_neg s.wprocess s.first s.free zero w.first_in) (
      refl,
      record {
        room = w.room;
        first_in = omega arith;
        few = omega arith;
        behind = omega (arith, w.behind);
      },
    )
    each (negsuc (suc m)) w = rw (signal_neg s.wprocess s.first s.free (suc m) w.first_in) (
      refl,
      record {
        room = w.room;
        first_in = omega arith;
        few = omega (arith, w.few);
        behind = omega (arith, w.behind, w.first_in);
      },
    )

-- `sem_wait`, with room for one more process to wait, answers as the promise, and the semaphore is
-- valid.
pub sem_wait_refines :
    (p : ℕ) (s : Semaphore)
    → IsValid s
    → neg_part s.count < 5
    → let (blocks, s') = sem_wait p s in ((blocks, counter s') ≡ acquire p (counter s)) × IsValid s'
unfolding acquire
sem_wait_refines p s v few = each s.count v few
  where
    each :
        (c : ℤ)
        → IsValid (sem c s.wprocess s.first s.free)
        → neg_part c < 5
        → let (blocks, s') = sem_wait p (sem c s.wprocess s.first s.free) in
          ((blocks, counter s') ≡ acquire p (counter (sem c s.wprocess s.first s.free)))
          × IsValid s'
    each (pos (suc n)) w few = rw (wait_pos s.wprocess s.first s.free p n) (
      ground arith,
      record { room = w.room; first_in = w.first_in; few = w.few; behind = w.behind },
    )
    each (pos zero) w few = rw (wait_zero s.wprocess s.first s.free p (omega (arith, w.behind))) (
      ap (λ q. (true, queue q))
          (cells-set s.wprocess 5 p 0 s.first s.free (omega (arith, w.room)) w.first_in few
            w.behind),
      record {
        room = length-set s.wprocess s.free p ∙ w.room;
        first_in = w.first_in;
        few = omega arith;
        behind = omega (arith, w.behind);
      },
    )
    each (negsuc n) w few = rw (wait_neg s.wprocess s.first s.free p n (omega (arith, w.behind))) (
      ap (λ q. (true, queue q))
          (cells-set s.wprocess 5 p (suc n) s.first s.free (omega (arith, w.room)) w.first_in few
            w.behind),
      record {
        room = length-set s.wprocess s.free p ∙ w.room;
        first_in = w.first_in;
        few = omega arith;
        behind = omega (arith, w.behind);
      },
    )
