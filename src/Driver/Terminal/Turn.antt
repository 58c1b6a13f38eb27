-- ===== src/Driver/Terminal/Turn.antt =====
-- What one character of `tty_write` leaves on the screen, cell by cell.
use so2c2011tp.Prelude.{
  ℕ, subst, ◌+◌, ◌-◌, ◌*◌, ◌/◌, ◌%◌, ◌<◌, ◌≤◌, ◌≡◌, ◌≢◌, refl, sym, inl, inr, some, ltb, leb, ◌==◌,
  ==_iff, ◌&&◌, true, false, get_or, set, get_or-set, length-set, if◌then◌else◌, arith, Bool-cases,
}
use so2c2011tp.Driver.Terminal.{
  Tty, terminal_format_range, terminal_get_column, terminal_prt_special_character, make_room,
  put_character,
}
use so2c2011tp.Driver.Terminal.Bounds.{IsValid}
use so2c2011tp.Driver.Terminal.Cells.{format_cells_lem, scrolled, terminal_scroll_lem}

-- Where the next character comes, and what the cells hold before it: a full screen has moved up by a
-- row.
abbrev pub start : Tty → ℕ
start t = if leb 4000 t.offset then 3840 else t.offset

abbrev pub cell_before : Tty → ℕ → ℕ
cell_before t k = if leb 4000 t.offset then scrolled t.screen k else get_or t.screen k 0

-- Formats are set from `o` up to `o'`, and nothing else changes.
abbrev pub formatted : ℕ → ℕ → ℕ → (ℕ → ℕ) → ℕ → ℕ
formatted o o' f cells k = if leb o k && ltb k o' && (k % 2 == 1) then f else cells k

-- A character and its format stand at `o`, and nothing else changes.
abbrev pub printed : ℕ → ℕ → ℕ → (ℕ → ℕ) → ℕ → ℕ
printed o c f cells k = if k == o then c else (if k == o + 1 then f else cells k)

-- What the character `c` makes of a terminal whose next place is `o`, with the format `f`: a line
-- break goes to the start of the next row, a tab to the next multiple of four columns, and any other
-- character is printed.
pub data Written (o f c : ℕ) (cells : ℕ → ℕ) (t' : Tty) : Type 0 where
  line_break :
      c ≡ 10
      → t'.offset ≡ (o / 160 + 1) * 160
      → ((k : ℕ) → k < 4000 → get_or t'.screen k 0 ≡ formatted o t'.offset f cells k)
      → t'.format ≡ f
      → Written o f c cells t'
  tab :
      c ≡ 9
      → t'.offset ≡ (o / 8 + 1) * 8
      → ((k : ℕ) → k < 4000 → get_or t'.screen k 0 ≡ formatted o t'.offset f cells k)
      → t'.format ≡ f
      → Written o f c cells t'
  plain :
      c ≢ 10
      → c ≢ 9
      → t'.offset ≡ o + 2
      → ((k : ℕ) → k < 4000 → get_or t'.screen k 0 ≡ printed o c f cells k)
      → t'.format ≡ f
      → Written o f c cells t'

pub make_room_lem :
    (t : Tty)
    → IsValid t
    → ((make_room t).offset ≡ start t)
      × ((make_room t).format ≡ t.format)
      × ((k : ℕ) → k < 4000 → get_or (make_room t).screen k 0 ≡ cell_before t k)
unfolding make_room
make_room_lem t v = elim (Bool-cases (leb 4000 t.offset)) [
  | inl full ↦ rw full (refl, refl, λ k h. terminal_scroll_lem t.screen k v.cells h)
  | inr room ↦ rw room (refl, refl, λ k h. refl)
]

format_range_lem :
    (b : Tty) (to k : ℕ)
    → IsValid b
    → to % 2 ≡ 0
    → to ≤ 4000
    → get_or (terminal_format_range b.screen b.offset to b.format) k 0
      ≡ formatted b.offset to b.format (λ k. get_or b.screen k 0) k
unfolding terminal_format_range
format_range_lem b to k v ev h =
    let even : (b.offset % 2 == 0) ≡ true = ground (arith, v.even) in
    rw even (
      format_cells_lem to b.offset to b.format k b.screen (omega arith) v.even ev
        (omega (arith, h, v.cells)))

moved_lem : (b t1 : Tty) (c : ℕ) → b.offset < t1.offset → put_character b t1 c ≡ t1
unfolding put_character
moved_lem b t1 c h = let other : (t1.offset == b.offset) ≡ false = ground (arith, h) in rw other

plain_lem :
    (b : Tty) (c k : ℕ)
    → IsValid b
    → b.offset < 4000
    → get_or (put_character b b c).screen k 0
      ≡ printed b.offset c b.format (λ k. get_or b.screen k 0) k
unfolding put_character
plain_lem b c k v h =
    let here : (b.offset == b.offset) ≡ true = ground arith in
    rw here (
      ground (
        arith,
        v.even,
        v.cells,
        h,
        get_or-set b.screen b.offset k c 0,
        length-set b.screen b.offset c,
        get_or-set (set b.screen b.offset c) (b.offset + 1) k b.format 0,
      ))

plain_offset :
    (b : Tty) (c : ℕ)
    → ((put_character b b c).offset ≡ b.offset + 2) × ((put_character b b c).format ≡ b.format)
unfolding put_character
plain_offset b c = let here : (b.offset == b.offset) ≡ true = ground arith in rw here (refl, refl)

-- A terminal whose formats were set up to the next place is not written again.
moved-Written :
    (b : Tty) (c to : ℕ)
    → b.offset < to
    → Written b.offset b.format c
        (λ k. get_or b.screen k 0)
        (record b { screen = terminal_format_range b.screen b.offset to b.format; offset = to })
    → Written b.offset b.format c
        (λ k. get_or b.screen k 0)
        (put_character b
          (record b { screen = terminal_format_range b.screen b.offset to b.format; offset = to })
          c)
moved-Written b c to h w =
    let t1 = record b {
      screen = terminal_format_range b.screen b.offset to b.format;
      offset = to;
    } in
    subst (λ t. Written b.offset b.format c (λ k. get_or b.screen k 0) t) (sym (moved_lem b t1 c h))
      w

pub special_lem :
    (b : Tty) (c : ℕ)
    → IsValid b
    → b.offset < 4000
    → c ≢ 8
    → (t1 : Tty) × (terminal_prt_special_character b c ≡ some t1)
      × Written b.offset b.format c (λ k. get_or b.screen k 0) (put_character b t1 c)
unfolding terminal_prt_special_character terminal_get_column
special_lem b c v h n =
    let o = b.offset in
    let line = (80 - o / 2 % 80) * 2 in
    let fill = (4 - o / 2 % 80 % 4) * 2 in
    elim (Bool-cases (c == 10)) [
      | inl lf ↦ rw lf (
        _,
        refl,
        moved-Written b c (o + line) (omega arith) (
            line_break ((==_iff c 10).0 lf) (omega (arith, v.even))
              (λ k _.
                format_range_lem b (o + line) k v (omega (arith, v.even))
                  (omega (arith, v.even, h)))
              refl),
      )
      | inr not_lf ↦ rw not_lf (elim (Bool-cases (c == 9)) [
        | inl ht ↦ rw ht (
          _,
          refl,
          moved-Written b c (o + fill) (omega arith) (
              tab ((==_iff c 9).0 ht) (omega (arith, v.even))
                (λ k _.
                  format_range_lem b (o + fill) k v (omega (arith, v.even))
                    (omega (arith, v.even, h)))
                refl),
        )
        | inr not_ht ↦ rw not_ht (elim (Bool-cases (c == 8)) [
          | inl back ↦ absurd (n ((==_iff c 8).0 back))
          | inr other ↦ rw other (
            b,
            refl,
            plain (λ e. ground (arith, e, not_lf)) (λ e. ground (arith, e, not_ht))
                (plain_offset b c).0 (λ k _. plain_lem b c k v h) (plain_offset b c).1,
          )
        ])
      ])
    ]

-- Only the cells on the screen count.
pub Written-cells :
    {o o' f f' c : ℕ} {cells cells' : ℕ → ℕ} (t' : Tty)
    → o ≡ o'
    → f ≡ f'
    → ((k : ℕ) → k < 4000 → cells k ≡ cells' k)
    → Written o f c cells t'
    → Written o' f' c cells' t'
Written-cells t' eo ef e (line_break a p q r) =
    line_break a (omega (arith, p, eo)) (λ k h. ground (arith, eo, ef, e k h, q k h))
      (omega (arith, r, ef))
Written-cells t' eo ef e (tab a p q r) =
    tab a (omega (arith, p, eo)) (λ k h. ground (arith, eo, ef, e k h, q k h))
      (omega (arith, r, ef))
Written-cells t' eo ef e (plain a a' p q r) =
    plain a a' (omega (arith, p, eo)) (λ k h. ground (arith, eo, ef, e k h, q k h))
      (omega (arith, r, ef))
