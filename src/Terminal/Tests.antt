-- ===== src/Terminal/Tests.antt =====
-- The terminal at some inputs.
use dvivon_os.Base.{arith, ◌∷◌, [], false, some, true, ◌≡◌, none, ℕ}
use dvivon_os.Terminal.Session.{session-Ready, keypresses}
use dvivon_os.Stdio.Keeps.{Ready}
use dvivon_os.Vga.{clears}
use dvivon_os.KeyCodes.{kc_a}
use dvivon_os.Terminal.{terminal_initialize}
use dvivon_os.Stdio.{Stdio}
use dvivon_os.Keyboard.{KeyEvent}

abbrev dark : Stdio
dark = record {
  active = record { on_init = none; on_clear = none; on_putc = none; on_puts = none };
  vga = record { row = 0; column = 0; color = 0; handler = clears; buffer = λ i. 0; ports = [] };
}

abbrev key_a : KeyEvent
key_a = record {
  code = kc_a;
  pressed = true;
  ascii = b'a';
  with_shift = false;
  with_ctrl = false;
  with_alt = false;
  with_caps = false;
}

session-Ready_example :
    (r : ℕ × Stdio) × (terminal_initialize dark ≡ some r)
    × Ready (keypresses (key_a ∷ key_a ∷ []) r.1)
session-Ready_example = session-Ready dark (key_a ∷ key_a ∷ []) (λ i. omega arith)
