-- ===== src/Keyboard/Tests.antt =====
-- Keys typed on an empty queue.
use mathlib.Core.Bool.{xor}
use dvivon_os.Keyboard.{key_event, apply_modifier, decode, push, Keyboard, callback, decode_make}
use dvivon_os.Keyboard.Queue.{IsValid, callback-Appends, callback-Overflows, events, pending}
use dvivon_os.Keyboard.Codes.{callback-Released, Released}
use dvivon_os.KeyCodes.{letter_from_keycode, kc_a, kc_none, ascii_from_keycode}
use dvivon_os.Base.{refl, true, [], ◌++◌, ◌≢◌, arith, false, ◌≡◌}

abbrev quiet : Keyboard
quiet = record {
  shift = false;
  ctrl = false;
  alt = false;
  caps = false;
  e0 = false;
  buffer = λ i. record {
    code = kc_none;
    pressed = false;
    ascii = 0;
    with_shift = false;
    with_ctrl = false;
    with_alt = false;
    with_caps = false;
  };
  head = 250;
  tail = 250;
}

quiet-IsValid : IsValid quiet
quiet-IsValid = record { head_bound = omega arith; tail_bound = omega arith }

-- Left Shift, then the key A: a capital letter.
typed : (callback 0x1e (callback 0x2a quiet)).buffer 251 ≡ record {
  code = kc_a;
  pressed = true;
  ascii = b'A';
  with_shift = true;
  with_ctrl = false;
  with_alt = false;
  with_caps = false;
}
unfolding callback push apply_modifier decode_make letter_from_keycode ascii_from_keycode key_event
    xor
typed = refl

one_key : Keyboard
one_key = callback 0x2a quiet

one_key-IsValid : IsValid one_key
unfolding one_key callback push apply_modifier decode_make
one_key-IsValid = record { head_bound = omega arith; tail_bound = omega arith }

callback-Appends_example :
    (pending (callback 0x2a quiet) ≡ pending quiet ++ events 0x2a quiet)
    × IsValid (callback 0x2a quiet)
callback-Appends_example = callback-Appends quiet quiet-IsValid 0x2a (omega arith)

abbrev full : Keyboard
full = record quiet { tail = 251 }

full-IsValid : IsValid full
full-IsValid = record { head_bound = omega arith; tail_bound = omega arith }

some_event : events 0x1e full ≢ []
unfolding decode_make
some_event e = cc

callback-Overflows_example : pending (callback 0x1e full) ≡ []
callback-Overflows_example = callback-Overflows full full-IsValid 0x1e (omega arith) some_event

callback-Released_example : Released (decode 0x2a quiet) quiet (callback 0xaa (callback 0x2a quiet))
callback-Released_example = callback-Released 0x2a quiet (omega arith) (λ e. omega arith) refl
