-- ===== src/Driver/Terminal.antt =====
-- src/driver/videoUtils.c and the writing in src/tty.c: a screen of characters, each with its format.
pub mod Bounds
pub mod Cells
pub mod Turn
pub mod Write
mod Tests
use so2c2011tp.Prelude.{
  ℕ, zero, suc, ◌+◌, ◌-◌, ◌*◌, ◌/◌, ◌%◌, Bool, true, false, not, ◌&&◌, Option, none, some, List, [],
  ◌∷◌, ltb, leb, ◌==◌, get_or, set, if◌then◌else◌,
}
use so2c2011tp.Text.{Text}

abbrev pub rows : ℕ
rows = 25

abbrev pub columns : ℕ
columns = 80

abbrev pub total_video_size : ℕ
total_video_size = 4000

-- A format of none is the -1 that leaves a format as it is.
abbrev pub set_format : Option ℕ → List ℕ → ℕ → List ℕ
set_format none screen i = screen
set_format (some format) screen i = set screen i format

-- The loop of `terminal_copyRow`, with `n` cells left.
pub copy_cells : ℕ → ℕ → ℕ → List ℕ → List ℕ
copy_cells zero offset_from offset_to screen = screen
copy_cells (suc n) offset_from offset_to screen =
    copy_cells n (offset_from + 1) (offset_to + 1)
      (set screen offset_to (get_or screen offset_from 0))

pub terminal_copy_row : List ℕ → ℕ → ℕ → List ℕ
terminal_copy_row screen from to =
    copy_cells (2 * columns) (2 * columns * from) (2 * columns * to) screen

-- The loop of `terminal_clearRow`, with `n` characters left.
pub clear_cells : ℕ → ℕ → Option ℕ → List ℕ → List ℕ
clear_cells zero offset format screen = screen
clear_cells (suc n) offset format screen =
    clear_cells n (offset + 2) format (set_format format (set screen offset 32) (offset + 1))

pub terminal_clear_row : List ℕ → ℕ → Option ℕ → List ℕ
terminal_clear_row screen row format = clear_cells columns (2 * columns * row) format screen

-- `terminal_clearRowRange`, with `n` rows left.
pub terminal_clear_row_range : ℕ → ℕ → List ℕ → List ℕ
terminal_clear_row_range zero row screen = screen
terminal_clear_row_range (suc n) row screen =
    terminal_clear_row_range n (row + 1) (terminal_clear_row screen row none)

-- The loop of `terminal_clearAll`, which goes one row past the last: that row is no part of `screen`.
pub clear_rows : ℕ → ℕ → Option ℕ → List ℕ → List ℕ
clear_rows zero row format screen = screen
clear_rows (suc n) row format screen =
    clear_rows n (row + 1) format (terminal_clear_row screen row format)

pub terminal_clear_all : List ℕ → Option ℕ → List ℕ
terminal_clear_all screen format = clear_rows (rows + 1) 0 format screen

-- The loop of `terminal_scroll`, with `n` rows left.
pub scroll_rows : ℕ → ℕ → List ℕ → List ℕ
scroll_rows zero row screen = screen
scroll_rows (suc n) row screen = scroll_rows n (row + 1) (terminal_copy_row screen row (row - 1))

pub terminal_scroll : List ℕ → List ℕ
terminal_scroll screen = terminal_clear_row (scroll_rows (rows - 1) 1 screen) (rows - 1) none

pub terminal_get_row : ℕ → ℕ
terminal_get_row offset = offset / 2 / columns

pub terminal_get_column : ℕ → ℕ
terminal_get_column offset = offset / 2 % columns

-- `terminal_getOffset`, none for its -1.
pub terminal_get_offset : ℕ → ℕ → Option ℕ
terminal_get_offset row column =
    if ltb row rows && ltb column columns then some (row * columns * 2 + column * 2) else none

-- The loop of `terminal_formatRange`; `to` turns are enough.
pub format_cells : ℕ → ℕ → ℕ → ℕ → List ℕ → List ℕ
format_cells zero i to format screen = screen
format_cells (suc fuel) i to format screen =
    let rest = format_cells fuel (i + 2) to format (set screen (i + 1) format) in
    if ltb i to then rest else screen

pub terminal_format_range : List ℕ → ℕ → ℕ → ℕ → List ℕ
terminal_format_range screen offset_from offset_to format =
    let from = if offset_from % 2 == 0 then offset_from else offset_from + 1 in
    format_cells offset_to from offset_to format screen

-- What `tty_write` keeps of a terminal.
pub record Tty : Type 0 where
  pub screen : List ℕ
  pub offset : ℕ
  pub format : ℕ

-- `terminal_prtSpecialCharater`: the offset after a character that is special, and the one given after
-- any other; none where a backspace would write before the screen. The format is a char: 255 is its -1.
pub terminal_prt_special_character : Tty → ℕ → Option Tty
terminal_prt_special_character t ascii =
    let line = (columns - terminal_get_column t.offset) * 2 in
    let tab = (4 - terminal_get_column t.offset % 4) * 2 in
    if ascii == 10
    then some (record t {
      screen = terminal_format_range t.screen t.offset (t.offset + line) t.format;
      offset = t.offset + line;
    })
    else (if ascii == 9
        then some (record t {
          screen = terminal_format_range t.screen t.offset (t.offset + tab) t.format;
          offset = t.offset + tab;
        })
        else (if ascii == 8
            then (if ltb t.offset 2
                then none
                else some (record t {
                  screen =
                      (let blanked = set t.screen (t.offset - 2) 32 in
                        if t.format == 255 then blanked else set blanked (t.offset - 1) t.format);
                  offset = t.offset - 2;
                }))
            else some t))

-- Room for a character: a terminal that is full scrolls.
pub make_room : Tty → Tty
make_room t =
    if leb total_video_size t.offset
    then record t { screen = terminal_scroll t.screen; offset = (rows - 1) * columns * 2 }
    else t

-- The character is written, unless it was special: then the offset has changed.
pub put_character : Tty → Tty → ℕ → Tty
put_character before t c = if not (t.offset == before.offset) then t else record t {
  screen = set (set t.screen t.offset c) (t.offset + 1) t.format;
  offset = t.offset + 2;
}

-- `tty_write`
pub tty_write : Tty → Text → Option Tty
tty_write t [] = some t
tty_write t (c ∷ cs) = elim (terminal_prt_special_character (make_room t) c) [
  | none ↦ none
  | some t' ↦ tty_write (put_character (make_room t) t' c) cs
]
