-- ===== src/Terminal.antt =====
-- src/prog/terminal.c: the terminal on the screen, and what a key press does. `_scroll_down_once`
-- stands with the screen.
pub mod Session
mod Tests
use dvivon_os.Base.{[], ◌∷◌, some, not, leb, ◌&&◌, ◌==◌, Bool, Option, if◌then◌else◌, List, ℕ}
use dvivon_os.Stdio.{word, printf, vga_interface, putc, set_interface, stdio_init, Stdio}
use dvivon_os.Vga.{scrolls, set_eof_handler}
use dvivon_os.Keyboard.{KeyEvent}
use Prim.Native.Char.{code}
use Prim.Native.String.{String}

-- The bytes of a text.
abbrev pub codes : String → List ℕ
codes String.[] = []
codes (String.◌∷◌ c s) = code c ∷ codes s

-- `STD_COLOR_MAGENTA`
abbrev magenta : ℕ
magenta = 5

abbrev pub is_printable_ascii : ℕ → Bool
is_printable_ascii c = leb b' ' c && leb c b'~'

pub handle_non_printable_ascii : ℕ → Stdio → Stdio
handle_non_printable_ascii c s =
    if c == 0x0a then putc 10 s else if c == 8 then putc 8 s else putc b'?' s

-- `none` as for `printf`.
pub terminal_initialize : Stdio → Option (ℕ × Stdio)
terminal_initialize s =
    let ready = stdio_init (set_interface (some vga_interface) s) in
    let scrolling = record ready { vga = set_eof_handler scrolls ready.vga } in
    printf (codes "%oWelcome to Iddo and Hillel amazing os!!!!\n") (word magenta ∷ []) scrolling

pub terminal_handle_keypress : KeyEvent → Stdio → Stdio
unfolding handle_non_printable_ascii
terminal_handle_keypress e s =
    if e.pressed && not (e.ascii == 0)
    then (if is_printable_ascii e.ascii
        then putc e.ascii s
        else handle_non_printable_ascii e.ascii s)
    else s
