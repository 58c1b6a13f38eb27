-- ===== src/Driver/Terminal/Bounds.antt =====
-- Where a terminal writes next.
use so2c2011tp.Prelude.{
  ℕ, zero, suc, ◌+◌, ◌%◌, ◌<◌, ◌≤◌, ◌≡◌, ◌≢◌, refl, ◌∙◌, inl, inr, Option, none, some, List, ltb,
  leb, ◌==◌, ==_iff, set, length, length-set, arith, Bool-cases,
}
use so2c2011tp.Driver.Terminal.{
  set_format, copy_cells, terminal_copy_row, clear_cells, terminal_clear_row, scroll_rows,
  terminal_scroll, terminal_get_column, format_cells, terminal_format_range, Tty,
  terminal_prt_special_character, make_room, put_character,
}

length-set_format : (f : Option ℕ) (s : List ℕ) (i : ℕ) → length (set_format f s i) ≡ length s
length-set_format none s i = refl
length-set_format (some x) s i = length-set s i x

pub length-copy_cells : (n a b : ℕ) (s : List ℕ) → length (copy_cells n a b s) ≡ length s
unfolding copy_cells
length-copy_cells zero a b s = refl
length-copy_cells (suc n) a b s = length-copy_cells n (a + 1) (b + 1) _ ∙ length-set s b _

pub length-clear_cells :
    (n o : ℕ) (f : Option ℕ) (s : List ℕ) → length (clear_cells n o f s) ≡ length s
unfolding clear_cells
length-clear_cells zero o f s = refl
length-clear_cells (suc n) o f s =
    length-clear_cells n (o + 2) f _ ∙ length-set_format f (set s o 32) (o + 1) ∙ length-set s o 32

pub length-scroll_rows : (n r : ℕ) (s : List ℕ) → length (scroll_rows n r s) ≡ length s
unfolding scroll_rows terminal_copy_row
length-scroll_rows zero r s = refl
length-scroll_rows (suc n) r s = length-scroll_rows n (r + 1) _ ∙ length-copy_cells _ _ _ s

pub length-terminal_scroll : (s : List ℕ) → length (terminal_scroll s) ≡ length s
unfolding terminal_scroll terminal_clear_row
length-terminal_scroll s = length-clear_cells _ _ none _ ∙ length-scroll_rows _ _ s

pub length-format_cells : (n i to f : ℕ) (s : List ℕ) → length (format_cells n i to f s) ≡ length s
unfolding format_cells
length-format_cells zero i to f s = refl
length-format_cells (suc n) i to f s = elim (Bool-cases (ltb i to)) [
  | inl on ↦ rw on (length-format_cells n (i + 2) to f (set s (i + 1) f) ∙ length-set s (i + 1) f)
  | inr off ↦ rw off
]

-- The screen has its cells, and the offset is that of a character on it or of its end.
pub record IsValid (t : Tty) : Type 0 where
  pub cells : length t.screen ≡ 4000
  pub even : t.offset % 2 ≡ 0
  pub on_screen : t.offset ≤ 4000

pub make_room-IsValid :
    (t : Tty) → IsValid t → IsValid (make_room t) × ((make_room t).offset < 4000)
unfolding make_room
make_room-IsValid t v = elim (Bool-cases (leb 4000 t.offset)) [
  | inl full ↦ rw full (
    record {
      cells = length-terminal_scroll t.screen ∙ v.cells;
      even = refl;
      on_screen = omega arith;
    },
    omega arith,
  )
  | inr room ↦ rw room (v, ground (arith, room))
]

-- What a special character other than a backspace leaves.
pub special-IsValid :
    (t : Tty) (c : ℕ)
    → IsValid t
    → t.offset < 4000
    → c ≢ 8
    → (t' : Tty) × (terminal_prt_special_character t c ≡ some t') × IsValid t'
unfolding terminal_prt_special_character terminal_format_range terminal_get_column
special-IsValid t c v h n = elim (Bool-cases (c == 10)) [
  | inl line ↦ rw line (
    _,
    refl,
    record {
      cells = length-format_cells _ _ _ _ t.screen ∙ v.cells;
      even = omega (arith, v.even);
      on_screen = omega (arith, v.even);
    },
  )
  | inr not_line ↦ rw not_line (elim (Bool-cases (c == 9)) [
    | inl tab ↦ rw tab (
      _,
      refl,
      record {
        cells = length-format_cells _ _ _ _ t.screen ∙ v.cells;
        even = omega (arith, v.even);
        on_screen = omega (arith, v.even);
      },
    )
    | inr not_tab ↦ rw not_tab (elim (Bool-cases (c == 8)) [
      | inl back ↦ absurd (n ((==_iff c 8).0 back))
      | inr plain ↦ rw plain (t, refl, v)
    ])
  ])
]

pub put_character-IsValid :
    (b t : Tty) (c : ℕ) → b.offset < 4000 → IsValid t → IsValid (put_character b t c)
unfolding put_character
put_character-IsValid b t c h v = elim (Bool-cases (t.offset == b.offset)) [
  | inl same ↦ rw same (record {
    cells = length-set _ (t.offset + 1) t.format ∙ length-set t.screen t.offset c ∙ v.cells;
    even = omega (arith, v.even);
    on_screen = omega (arith, v.even, (==_iff t.offset b.offset).0 same);
  })
  | inr moved ↦ rw moved v
]
