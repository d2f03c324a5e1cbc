-- ===== src/Vga/Screen.antt =====
-- What the screen of src/drivers/vga.c keeps to, and the clearing and the scrolling of a full one.
-- The state between two calls: every variable is in the range of its type, and the cursor is on the
-- screen.
use dvivon_os.Vga.Cells.{shift_rows_lem, blank_cells-row, blank_cells_lem, clear_rows_lem, in_span}
use dvivon_os.Base.{◌-◌, if◌then◌else◌, ◌+◌, arith, ◌^◌, ℕ, ◌<◌, ◌≡◌, ◌≤◌}
use dvivon_os.Vga.{
  black, shift_rows, light_grey, set_col, move_cursor, set_row, Vga, clear, entry, entry_color,
  scroll_down_once,
}

pub record OnScreen (v : Vga) : Type 0 where
  pub row_lt : v.row < 25
  pub column_lt : v.column < 80
  pub color_lt : v.color < 2 ^ 8
  pub cells : (i : ℕ) → v.buffer i < 2 ^ 16

-- Behind the 2000 cells of the screen nothing is written.
abbrev pub Behind : Vga → Vga → Type 0
Behind v w = (i : ℕ) → 2000 ≤ i → w.buffer i ≡ v.buffer i

pub entry-lt : (c color : ℕ) → entry c color < 2 ^ 16
unfolding entry
entry-lt c color = omega arith

pub entry_color-lt : (fg bg : ℕ) → entry_color fg bg < 2 ^ 8
unfolding entry_color
entry_color-lt fg bg = omega arith

-- The state before the test for a full screen: the row may be the one below the screen.
pub record Advanced (v : Vga) : Type 0 where
  pub row_le : v.row ≤ 25
  pub column_lt : v.column < 80
  pub color_lt : v.color < 2 ^ 8
  pub cells : (i : ℕ) → v.buffer i < 2 ^ 16

pub clear-OnScreen : (v : Vga) → Advanced v → OnScreen (clear v) × Behind v (clear v)
unfolding clear move_cursor
clear-OnScreen v h =
    let blank = entry b' ' (entry_color light_grey black) in
    (
      record {
        row_lt = omega arith;
        column_lt = omega arith;
        color_lt = h.color_lt;
        cells = λ i. ground (
          arith,
          clear_rows_lem 25 0 blank v.buffer i,
          h.cells i,
          entry-lt b' ' (entry_color light_grey black),
        );
      },
      λ i far. ground (arith, clear_rows_lem 25 0 blank v.buffer i),
    )

-- A scroll from below the screen: the rows move up by one, and the last one is blank.
pub scroll_buffer :
    (v : Vga) (i : ℕ)
    → (scroll_down_once v).buffer i ≡ (
        if in_span 1920 80 i
        then entry b' ' v.color
        else if in_span 0 1920 i
        then v.buffer (i + 80)
        else v.buffer i)
unfolding scroll_down_once set_row set_col move_cursor
scroll_buffer v i =
    let up = record v { buffer = shift_rows (25 - 1) 1 v.buffer } in
    ground (
      arith,
      blank_cells_lem 80 0 24 v.color up i (omega arith) (omega arith),
      shift_rows_lem 24 0 v.buffer i,
    )

pub scroll_place :
    (v : Vga)
    → v.row ≡ 25
    → ((scroll_down_once v).row ≡ 24)
      × ((scroll_down_once v).column ≡ 0)
      × ((scroll_down_once v).color ≡ v.color)
      × ((scroll_down_once v).handler ≡ v.handler)
unfolding scroll_down_once set_row set_col move_cursor
scroll_place v h =
    let up = record v { buffer = shift_rows (25 - 1) 1 v.buffer } in
    ground (arith, blank_cells-row 80 0 24 v.color up)

pub scroll-OnScreen :
    (v : Vga)
    → v.row ≡ 25
    → Advanced v
    → OnScreen (scroll_down_once v) × Behind v (scroll_down_once v)
scroll-OnScreen v e h = (
  record {
    row_lt = omega (arith, scroll_place v e);
    column_lt = omega (arith, scroll_place v e);
    color_lt = omega (arith, scroll_place v e, h.color_lt);
    cells =
        λ i. ground (arith, scroll_buffer v i, h.cells i, h.cells (i + 80), entry-lt b' ' v.color);
  },
  λ i far. ground (arith, scroll_buffer v i),
)
