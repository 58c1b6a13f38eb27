-- ===== src/Driver/Terminal/Tests.antt =====
-- A terminal whose screen is nearly full.
use so2c2011tp.Prelude.{ℕ, ◌≡◌, refl, some, [], ◌∷◌, arith, replicate, length-replicate}
use so2c2011tp.Text.{Text}
use so2c2011tp.Driver.Terminal.{Tty, tty_write}
use so2c2011tp.Driver.Terminal.Bounds.{IsValid}
use so2c2011tp.Driver.Terminal.Write.{Typed, tty_write_lem}

abbrev nearly_full : Tty
nearly_full = record { screen = replicate 4000 0; offset = 3996; format = 15 }

nearly_full-IsValid : IsValid nearly_full
nearly_full-IsValid = record {
  cells = length-replicate {A = ℕ} 4000 0;
  even = refl;
  on_screen = omega arith;
}

abbrev lines : Text
lines = 104 ∷ 105 ∷ 10 ∷ 9 ∷ 104 ∷ []

tty_write_lem_example :
    (t' : Tty) × (tty_write nearly_full lines ≡ some t') × Typed nearly_full lines t'
tty_write_lem_example = tty_write_lem lines nearly_full nearly_full-IsValid (
  (λ e. omega (arith, e)),
  (
    (λ e. omega (arith, e)),
    ((λ e. omega (arith, e)), ((λ e. omega (arith, e)), ((λ e. omega (arith, e)), tt))),
  ),
)
