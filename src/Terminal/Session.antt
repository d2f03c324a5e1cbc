-- ===== src/Terminal/Session.antt =====
-- The terminal of src/prog/terminal.c from its start on.
use dvivon_os.Vga.Cursor.{initialize-OnScreen, set_eof_handler-OnScreen}
use dvivon_os.Base.{
  refl, take, ◌==◌, false, not, true, arith, if◌then◌else◌, ◌&&◌, Bool, some, ◌^◌, [], ◌<◌, ◌≡◌, ℕ,
  ◌∷◌, List,
}
use dvivon_os.Stdio.Keeps.{putc-Ready, init-screen, printf-Ready, Ready}
use dvivon_os.Vga.{initialize, scrolls, set_eof_handler}
use dvivon_os.Stdio.{word, vga_interface, Stdio, set_interface, stdio_init}
use dvivon_os.Terminal.{
  codes, is_printable_ascii, handle_non_printable_ascii, terminal_handle_keypress,
  terminal_initialize,
}
use dvivon_os.Str.{strlen}
use dvivon_os.Stdio.Ends.{printf-Ends, serves}
use dvivon_os.Keyboard.{KeyEvent}

-- The terminal after a number of key events.
pub keypresses : List KeyEvent → Stdio → Stdio
keypresses [] s = s
keypresses (e ∷ es) s = keypresses es (terminal_handle_keypress e s)

if-Ready : (b : Bool) (s t : Stdio) → Ready s → Ready t → Ready (if b then s else t)
if-Ready true s t h k = h
if-Ready false s t h k = k

keypress-Ready : (e : KeyEvent) (s : Stdio) → Ready s → Ready (terminal_handle_keypress e s)
unfolding terminal_handle_keypress handle_non_printable_ascii
keypress-Ready e s h =
    if-Ready (e.pressed && not (e.ascii == 0)) _ _
      (if-Ready (is_printable_ascii e.ascii) _ _ (putc-Ready e.ascii s h) (
        if-Ready (e.ascii == 0x0a) _ _ (putc-Ready 10 s h)
          (if-Ready (e.ascii == 8) _ _ (putc-Ready 8 s h) (putc-Ready b'?' s h))))
      h

keypresses-Ready : (es : List KeyEvent) (s : Stdio) → Ready s → Ready (keypresses es s)
unfolding keypresses
keypresses-Ready [] s h = h
keypresses-Ready (e ∷ es) s h =
    keypresses-Ready es (terminal_handle_keypress e s) (keypress-Ready e s h)

started :
    (s : Stdio)
    → ((i : ℕ) → s.vga.buffer i < 2 ^ 16)
    → Ready (record (stdio_init (set_interface (some vga_interface) s)) {
      vga = set_eof_handler scrolls (stdio_init (set_interface (some vga_interface) s)).vga;
    })
started s fits = rw (init-screen s) (record {
  is_screen = refl;
  on_screen = set_eof_handler-OnScreen scrolls (initialize s.vga) (initialize-OnScreen s.vga fits);
})

welcome-serves :
    serves false
      (take
        (strlen (codes "%oWelcome to Iddo and Hillel amazing os!!!!\n"))
        (codes "%oWelcome to Iddo and Hillel amazing os!!!!\n"))
      (word 5 ∷ [])
    ≡ true
unfolding serves strlen
welcome-serves = refl

-- `terminal_initialize` comes to an end.
pub terminal_initialize-ends : (s : Stdio) → (r : ℕ × Stdio) × (terminal_initialize s ≡ some r)
unfolding terminal_initialize
terminal_initialize-ends s = printf-Ends _ _ _ (omega arith) welcome-serves

-- Over whatever video memory held, `terminal_initialize` comes to an end, and after it, and after any
-- sequence of key events, the screen is in order and its functions are those that print.
pub session-Ready :
    (s : Stdio) (es : List KeyEvent)
    → ((i : ℕ) → s.vga.buffer i < 2 ^ 16)
    → (r : ℕ × Stdio) × (terminal_initialize s ≡ some r) × Ready (keypresses es r.1)
unfolding terminal_initialize
session-Ready s es fits =
    let (r, e) = terminal_initialize-ends s in
    (r, e, keypresses-Ready es r.1 (printf-Ready _ _ _ (started s fits) e))
