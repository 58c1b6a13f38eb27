-- ===== src/Driver/Terminal/Write.antt =====
-- What `tty_write` leaves on the screen, cell by cell.
use so2c2011tp.Prelude.{ℕ, subst, ◌≡◌, ◌≢◌, refl, ap, sym, ◌∙◌, none, some, [], ◌∷◌}
use so2c2011tp.Text.{Text}
use so2c2011tp.Driver.Terminal.{
  Tty, terminal_prt_special_character, make_room, put_character, tty_write,
}
use so2c2011tp.Driver.Terminal.Bounds.{
  IsValid, make_room-IsValid, special-IsValid, put_character-IsValid,
}
use so2c2011tp.Driver.Terminal.Turn.{
  start, cell_before, Written, make_room_lem, special_lem, Written-cells,
}

-- No character is a backspace.
abbrev pub NoBackspace : Text → Type 0
NoBackspace [] = Unit
NoBackspace (c ∷ cs) = (c ≢ 8) × NoBackspace cs

-- The characters are written one after the other, each to a valid terminal.
pub data Typed : Tty → Text → Tty → Type 0 where
  done : {t : Tty} → Typed t [] t
  one_more :
      {t t' : Tty} {c : ℕ} {cs : Text} (t1 : Tty)
      → Written (start t) t.format c (cell_before t) t1
      → IsValid t1
      → Typed t1 cs t'
      → Typed t (c ∷ cs) t'

some-injective : {t u : Tty} → some t ≡ some u → t ≡ u
some-injective {t = t} e = ap (λ o. elim o [ none ↦ t | some r ↦ r ]) e

turn_lem :
    (t : Tty) (c : ℕ)
    → IsValid t
    → c ≢ 8
    → (t1 : Tty) × (terminal_prt_special_character (make_room t) c ≡ some t1)
      × Written (start t) t.format c (cell_before t) (put_character (make_room t) t1 c)
      × IsValid (put_character (make_room t) t1 c)
turn_lem t c v n =
    let b = make_room t in
    let (room, less) = make_room-IsValid t v in
    let (eo, ef, cells) = make_room_lem t v in
    let (t1, e, w) = special_lem b c room less n in
    let (u, e', valid) = special-IsValid b c room less n in
    let same : u ≡ t1 = some-injective (sym e' ∙ e) in
    (
      t1,
      e,
      Written-cells (put_character b t1 c) eo ef cells w,
      put_character-IsValid b t1 c less (subst (λ x. IsValid x) same valid),
    )

-- `tty_write` writes a text without backspaces, of any length, to a valid terminal, character by
-- character. Before each, a screen that is full moves up by a row, and the last row gets blanks. A line
-- break sets the formats up to the start of the next row, a tab up to the next multiple of four
-- columns, and both go on from there; any other character is put, with its format, at the offset, which
-- goes up by 2. All other cells keep what they hold, and the terminal is valid after each: the screen
-- has 4000 cells and the offset is even and on the screen or at its end.
pub tty_write_lem :
    (cs : Text) (t : Tty)
    → IsValid t
    → NoBackspace cs
    → (t' : Tty) × (tty_write t cs ≡ some t') × Typed t cs t'
unfolding tty_write
tty_write_lem [] t v n = (t, refl, done)
tty_write_lem (c ∷ cs) t v n =
    let (t1, special, written, valid) = turn_lem t c v n.0 in
    let (t', e, typed) = tty_write_lem cs (put_character (make_room t) t1 c) valid n.1 in
    (t', rw (special, tty_write) e, one_more _ written valid typed)
