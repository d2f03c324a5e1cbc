-- ===== src/Vga.antt =====
-- src/drivers/vga.c: the text screen, and the handler that src/prog/terminal.c sets for a full screen.
-- A size_t has 32 bits. Video memory is a function from the index of a cell; the bytes that are sent
-- to ports are a list, the newest first. The state is that after `vga_initialize`, so that
-- `vga_EOF_handler` is one of the two functions that the repository stores there.
pub mod Cells
pub mod Screen
pub mod Cursor
pub mod Text
mod Tests
use dvivon_os.Base.{
  ltb, ◌/◌, [], leb, zero, ◌%◌, ◌==◌, bit_or, if◌then◌else◌, suc, take, ◌*◌, ◌+◌, ◌^◌, ◌∷◌, List, ℕ,
  ◌-◌,
}
use dvivon_os.Base.Buf.{update}
use dvivon_os.Str.{strlen}

abbrev pub vga_width : ℕ
vga_width = 80

abbrev pub vga_height : ℕ
vga_height = 25

abbrev pub size_mod : ℕ
size_mod = 2 ^ 32

-- `VGA_COLOR_LIGHT_GREY` and `VGA_COLOR_BLACK`
abbrev pub light_grey : ℕ
light_grey = 7

abbrev pub black : ℕ
black = 0

-- `vga_clear` or `_scroll_down_once`
pub data EofHandler : Type 0 where
  clears scrolls : EofHandler

pub record Vga : Type 0 where
  pub row : ℕ
  pub column : ℕ
  pub color : ℕ
  pub handler : EofHandler
  pub buffer : ℕ → ℕ
  pub ports : List (ℕ × ℕ)

-- `_vga_entry_color(fg, bg)` and `_vga_entry(uc, color)`
pub entry_color : ℕ → ℕ → ℕ
entry_color fg bg = bit_or fg (bg * 16) % 2 ^ 8

pub entry : ℕ → ℕ → ℕ
entry uc color = bit_or (uc % 2 ^ 8) (color * 2 ^ 8) % 2 ^ 16

abbrev pub cell : ℕ → ℕ → ℕ
cell x y = (y * vga_width + x) % size_mod

pub putchar_at : (c color x y : ℕ) → Vga → Vga
putchar_at c color x y v = record v { buffer = update v.buffer (cell x y) (entry c color) }

-- The index register of the screen is port 0x3D4, its data register port 0x3D5.
pub move_cursor : (row col : ℕ) → Vga → Vga
move_cursor row col v =
    let pos = (row * vga_width + col) % size_mod % 2 ^ 16 in
    record v {
      ports = (0x3d5, pos % 256) ∷ (0x3d4, 15) ∷ (0x3d5, pos / 256 % 256) ∷ (0x3d4, 14) ∷ v.ports;
    }

-- The loops of `vga_clear`: n cells of row y from column x on, and n rows from row y on.
pub clear_cells : (n x y e : ℕ) → (ℕ → ℕ) → ℕ → ℕ
clear_cells zero x y e b = b
clear_cells (suc n) x y e b = clear_cells n (x + 1) y e (update b (y * vga_width + x) e)

pub clear_rows : (n y e : ℕ) → (ℕ → ℕ) → ℕ → ℕ
clear_rows zero y e b = b
clear_rows (suc n) y e b = clear_rows n (y + 1) e (clear_cells vga_width 0 y e b)

pub clear : Vga → Vga
unfolding move_cursor
clear v =
    let blank = entry b' ' (entry_color light_grey black) in
    move_cursor 0 0
      (record v { buffer = clear_rows vga_height 0 blank v.buffer; row = 0; column = 0 })

pub set_row : ℕ → Vga → Vga
unfolding move_cursor
set_row row v =
    let r = if leb vga_height row then vga_height - 1 else row in
    move_cursor r v.column (record v { row = r })

pub set_col : ℕ → Vga → Vga
unfolding move_cursor
set_col col v =
    let c = if leb vga_width col then vga_width - 1 else col in
    move_cursor v.row c (record v { column = c })

pub set_color : ℕ → Vga → Vga
set_color color v = record v { color = color }

pub set_eof_handler : EofHandler → Vga → Vga
set_eof_handler h v = record v { handler = h }

-- `_scroll_down_once` of the terminal: n cells of row y move up from column x on, then n rows.
pub shift_cells : (n x y : ℕ) → (ℕ → ℕ) → ℕ → ℕ
shift_cells zero x y b = b
shift_cells (suc n) x y b =
    shift_cells n (x + 1) y (update b ((y - 1) * vga_width + x) (b (y * vga_width + x)))

pub shift_rows : (n y : ℕ) → (ℕ → ℕ) → ℕ → ℕ
shift_rows zero y b = b
shift_rows (suc n) y b = shift_rows n (y + 1) (shift_cells vga_width 0 y b)

pub blank_cells : (n x y color : ℕ) → Vga → Vga
unfolding putchar_at
blank_cells zero x y color v = v
blank_cells (suc n) x y color v = blank_cells n (x + 1) y color (putchar_at b' ' color x y v)

pub scroll_down_once : Vga → Vga
unfolding set_row set_col move_cursor
scroll_down_once v =
    let up = record v { buffer = shift_rows (vga_height - 1) 1 v.buffer } in
    let left = set_col 0 (blank_cells vga_width 0 (vga_height - 1) v.color up) in
    let v' = set_row ((left.row + size_mod - 1) % size_mod) left in move_cursor v'.row v'.column v'

pub run_handler : EofHandler → Vga → Vga
run_handler clears v = clear v
run_handler scrolls v = scroll_down_once v

-- The three branches of `vga_putchar` before the test for a full screen.
pub advance : ℕ → Vga → Vga
unfolding putchar_at
advance c v =
    let next = (v.column + 1) % size_mod in
    let below = (v.row + 1) % size_mod in
    let back = (v.column + size_mod - 1) % size_mod in
    let written = putchar_at c v.color v.column v.row v in
    if c == 10
    then record v { row = below; column = 0 }
    else if c == 8
    then (if ltb 0 v.column
        then putchar_at b' ' v.color back v.row (record v { column = back })
        else v)
    else if next == vga_width
    then record written { column = 0; row = below }
    else record written { column = next }

pub putchar : ℕ → Vga → Vga
unfolding move_cursor
putchar c v =
    let w = advance c v in
    let w' = if w.row == vga_height then run_handler w.handler w else w in
    move_cursor w'.row w'.column w'

-- The loop of `vga_writestring` over the bytes before the NUL.
pub write_bytes : List ℕ → Vga → Vga
write_bytes [] v = v
write_bytes (c ∷ s) v = write_bytes s (putchar c v)

pub writestring : List ℕ → Vga → Vga
writestring s v = write_bytes (take (strlen s) s) v

-- `vga_initialize`, over whatever the variables and video memory held.
pub initialize : Vga → Vga
initialize v =
    clear (record v { row = 0; column = 0; color = entry_color light_grey black; handler = clears })
