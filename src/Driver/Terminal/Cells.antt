-- ===== src/Driver/Terminal/Cells.antt =====
-- What each cell of the screen holds after the loops of src/driver/videoUtils.c.
use so2c2011tp.Prelude.{
  ℕ, zero, suc, ◌+◌, ◌-◌, ◌*◌, ◌%◌, ◌<◌, ◌≤◌, ◌≡◌, ap, ◌∙◌, inl, inr, none, List, ltb, leb, ◌==◌,
  ==_iff, ◌&&◌, get_or, set, get_or-set, length, length-set, if◌then◌else◌, arith, Bool-cases,
}
use so2c2011tp.Driver.Terminal.{
  copy_cells, terminal_copy_row, clear_cells, terminal_clear_row, scroll_rows, terminal_scroll,
  format_cells,
}
use so2c2011tp.Driver.Terminal.Bounds.{length-copy_cells, length-scroll_rows}

-- The `n` cells from `b` on are those that stood `d` cells behind.
copy_cells_lem :
    (n a b d k : ℕ) (s : List ℕ)
    → a ≡ b + d
    → 0 < d
    → b + n ≤ length s
    → get_or (copy_cells n a b s) k 0
      ≡ (if leb b k && ltb k (b + n) then get_or s (k + d) 0 else get_or s k 0)
unfolding copy_cells
copy_cells_lem zero a b d k s e pos h = ground arith
copy_cells_lem (suc n) a b d k s e pos h =
    let s' = set s b (get_or s a 0) in
    let len = length-set s b (get_or s a 0) in
    copy_cells_lem n (a + 1) (b + 1) d k s' (omega (arith, e)) pos (omega (arith, h, len))
    ∙ elim (Bool-cases (b == k)) [
      | inl same ↦
          (let at : get_or s a 0 ≡ get_or s (k + d) 0 =
              ap (λ n. get_or s n 0) {x = a} {y = k + d} (omega (arith, e, (==_iff b k).0 same)) in
            ground (
              arith,
              h,
              pos,
              same,
              at,
              get_or-set s b k (get_or s a 0) 0,
              get_or-set s b (k + d) (get_or s a 0) 0,
            ))
      | inr other ↦ ground (
        arith,
        h,
        pos,
        other,
        get_or-set s b k (get_or s a 0) 0,
        get_or-set s b (k + d) (get_or s a 0) 0,
      )
    ]

-- Each of the `n` rows from the one before row `r` on is the one that stood below it.
scroll_rows_lem :
    (n r k : ℕ) (s : List ℕ)
    → 1 ≤ r
    → 160 * (r + n) ≤ length s
    → get_or (scroll_rows n r s) k 0 ≡ (
        if leb (160 * (r - 1)) k && ltb k (160 * (r - 1 + n))
        then get_or s (k + 160) 0
        else get_or s k 0)
unfolding scroll_rows terminal_copy_row
scroll_rows_lem zero r k s h len = ground arith
scroll_rows_lem (suc n) r k s h len =
    let s' = terminal_copy_row s r (r - 1) in
    let same : length s' ≡ length s = length-copy_cells 160 (160 * r) (160 * (r - 1)) s in
    let at =
      copy_cells_lem 160 (160 * r) (160 * (r - 1)) 160 k s (omega (arith, h)) (omega arith)
        (omega (arith, h, len)) in
    let below =
      copy_cells_lem 160 (160 * r) (160 * (r - 1)) 160 (k + 160) s (omega (arith, h)) (omega arith)
        (omega (arith, h, len)) in
    scroll_rows_lem n (r + 1) k s' (omega arith) (omega (arith, same, len))
    ∙ ground (arith, h, at, below)

-- The `n` characters from `o` on are blanks, and their formats are as they were.
clear_cells_lem :
    (n o k : ℕ) (s : List ℕ)
    → o + 2 * n ≤ length s
    → get_or (clear_cells n o none s) k 0
      ≡ (if leb o k && ltb k (o + 2 * n) && (k % 2 == o % 2) then 32 else get_or s k 0)
unfolding clear_cells
clear_cells_lem zero o k s h = ground arith
clear_cells_lem (suc n) o k s h =
    let s' = set s o 32 in
    clear_cells_lem n (o + 2) k s' (omega (arith, h, length-set s o 32))
    ∙ ground (arith, h, get_or-set s o k 32 0)

-- A format is set on the characters from `i` up to `to`.
pub format_cells_lem :
    (n i to f k : ℕ) (s : List ℕ)
    → to ≤ i + n
    → i % 2 ≡ 0
    → to % 2 ≡ 0
    → to ≤ length s
    → get_or (format_cells n i to f s) k 0
      ≡ (if leb i k && ltb k to && (k % 2 == 1) then f else get_or s k 0)
unfolding format_cells
format_cells_lem zero i to f k s h ev ev' len = ground (arith, h)
format_cells_lem (suc n) i to f k s h ev ev' len = elim (Bool-cases (ltb i to)) [
  | inl on ↦ rw on (
      format_cells_lem n (i + 2) to f k (set s (i + 1) f) (omega (arith, h)) (omega (arith, ev)) ev'
        (omega (arith, len, length-set s (i + 1) f))
      ∙ ground (arith, ev, ev', len, on, get_or-set s (i + 1) k f 0))
  | inr off ↦ rw off (ground (arith, off))
]

-- A screen moved up by a row: the last row has blanks, in the formats that it had.
abbrev pub scrolled : List ℕ → ℕ → ℕ
scrolled s k =
    if ltb k 3840 then get_or s (k + 160) 0 else (if k % 2 == 0 then 32 else get_or s k 0)

pub terminal_scroll_lem :
    (s : List ℕ) (k : ℕ)
    → length s ≡ 4000
    → k < 4000
    → get_or (terminal_scroll s) k 0 ≡ scrolled s k
unfolding terminal_scroll terminal_clear_row
terminal_scroll_lem s k len h =
    let moved = scroll_rows_lem 24 1 k s (omega arith) (omega (arith, len)) in
    let blank =
      clear_cells_lem 80 3840 k (scroll_rows 24 1 s)
        (omega (arith, len, length-scroll_rows 24 1 s)) in
    blank ∙ ground (arith, h, moved)
