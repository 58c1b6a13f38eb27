-- ===== src/Util/Semaphore/Counter.antt =====
-- What a semaphore promises: units that are free, or a queue of those who wait for one.
use so2c2011tp.Prelude.{
  ℕ, ◌+◌, ◌-◌, Bool, true, false, Option, none, some, List, [], ◌∷◌, ◌++◌, ◌==◌, if◌then◌else◌,
}

pub record Counter : Type 0 where
  pub value : ℕ
  pub waiting : List ℕ

unfoldable pub release : Counter → Option ℕ × Counter
release c = elim c.waiting [
  | [] ↦ (none, record c { value = c.value + 1 })
  | p ∷ ps ↦ (some p, record c { waiting = ps })
]

unfoldable pub acquire : ℕ → Counter → Bool × Counter
acquire p c =
    if c.value == 0
    then (true, record c { waiting = c.waiting ++ (p ∷ []) })
    else (false, record c { value = c.value - 1 })
