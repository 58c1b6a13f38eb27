-- ===== src/Util/Semaphore/Tests.antt =====
-- A semaphore for which two processes wait, round the end of its ring.
use so2c2011tp.Prelude.{◌≡◌, [], ◌∷◌, arith, refl}
use so2c2011tp.Prelude.Int.{negsuc}
use so2c2011tp.Util.Semaphore.{Semaphore, sem_signal, sem_wait}
use so2c2011tp.Util.Semaphore.Counter.{release, acquire}
use so2c2011tp.Util.Semaphore.Refine.{IsValid, counter, sem_signal_refines, sem_wait_refines}

abbrev two_wait : Semaphore
two_wait = record { count = negsuc 1; wprocess = 8 ∷ 0 ∷ 0 ∷ 0 ∷ 7 ∷ []; first = 4; free = 1 }

two_wait-IsValid : IsValid two_wait
two_wait-IsValid = record { room = refl; first_in = omega arith; few = omega arith; behind = refl }

sem_signal_refines_example :
    let (woken, s') = sem_signal two_wait in
    ((woken, counter s') ≡ release (counter two_wait)) × IsValid s'
sem_signal_refines_example = sem_signal_refines two_wait two_wait-IsValid

sem_wait_refines_example :
    let (blocks, s') = sem_wait 9 two_wait in
    ((blocks, counter s') ≡ acquire 9 (counter two_wait)) × IsValid s'
sem_wait_refines_example = sem_wait_refines 9 two_wait two_wait-IsValid (omega arith)
