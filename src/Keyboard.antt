-- ===== src/Keyboard.antt =====
-- src/drivers/keyboard.c: the state machine that decodes scan codes, and the queue of key events
-- between the interrupt handler and its reader. The byte that the handler reads from the port is an
-- argument.
pub mod Queue
pub mod Codes
mod Tests
use dvivon_os.KeyCodes.{
  kc_caps, kc_ralt, kc_lalt, kc_rctrl, sc1_to_keycode, kc_lctrl, kc_none, kc_rshift,
  ascii_from_keycode, e0_map, kc_lshift, Key,
}
use dvivon_os.Base.{
  get_or, some, ltb, none, false, leb, ◌==◌, if◌then◌else◌, not, true, ◌%◌, ◌+◌, Bool, Option, ℕ,
}
use dvivon_os.Base.Buf.{update}

-- `key_event`, with the snapshot of the modifiers.
pub record KeyEvent : Type 0 where
  pub code : Key
  pub pressed : Bool
  pub ascii : ℕ
  pub with_shift : Bool
  pub with_ctrl : Bool
  pub with_alt : Bool
  pub with_caps : Bool

-- The static variables of the file. `buffer` is an array of 256 elements, `head` and `tail` are the
-- indices `buffer_head` and `buffer_tail`.
pub record Keyboard : Type 0 where
  pub shift : Bool
  pub ctrl : Bool
  pub alt : Bool
  pub caps : Bool
  pub e0 : Bool
  pub buffer : ℕ → KeyEvent
  pub head : ℕ
  pub tail : ℕ

abbrev pub keyboard_buffer_size : ℕ
keyboard_buffer_size = 256

-- `_decode_make`
unfoldable pub decode_make : (e0 : Bool) → ℕ → Key
decode_make e0 sc =
    if e0 then e0_map sc else if ltb sc 128 then get_or sc1_to_keycode sc kc_none else kc_none

-- `_decode_break`: `sc &= 0x7F`
unfoldable pub decode_break : (e0 : Bool) → ℕ → Key
unfolding decode_make
decode_break e0 sc = decode_make e0 (sc % 128)

-- `_apply_modifier`
unfoldable pub apply_modifier : Key → (pressed : Bool) → Keyboard → Keyboard
apply_modifier kc_lshift pressed s = record s { shift = pressed }
apply_modifier kc_rshift pressed s = record s { shift = pressed }
apply_modifier kc_lctrl pressed s = record s { ctrl = pressed }
apply_modifier kc_rctrl pressed s = record s { ctrl = pressed }
apply_modifier kc_lalt pressed s = record s { alt = pressed }
apply_modifier kc_ralt pressed s = record s { alt = pressed }
apply_modifier kc_caps pressed s = record s { caps = if pressed then not s.caps else s.caps }
apply_modifier _ pressed s = s

abbrev pub is_none : Key → Bool
is_none kc_none = true
is_none _ = false

-- The event of a key, with the modifiers after it.
unfoldable pub key_event : Key → (pressed : Bool) → Keyboard → KeyEvent
key_event kc pressed s = record {
  code = kc;
  pressed = pressed;
  ascii = if pressed then ascii_from_keycode kc s.shift s.caps s.ctrl else 0;
  with_shift = s.shift;
  with_ctrl = s.ctrl;
  with_alt = s.alt;
  with_caps = s.caps;
}

-- `keyboard_buffer[buffer_head] = event; buffer_head = (buffer_head + 1) % KEYBOARD_BUFFER_SIZE;`
unfoldable pub push : KeyEvent → Keyboard → Keyboard
push event s = record s {
  buffer = update s.buffer s.head event;
  head = (s.head + 1) % keyboard_buffer_size;
}

-- The key that a byte stands for, other than the prefix 0xE0.
abbrev pub decode : ℕ → Keyboard → Key
decode sc s = if leb 128 sc then decode_break s.e0 sc else decode_make s.e0 sc

-- `keyboard_callback`, for the byte that `inb` gave.
unfoldable pub callback : ℕ → Keyboard → Keyboard
unfolding push
callback sc s =
    let pressed = not (leb 128 sc) in
    let kc = decode sc s in
    let s₁ = apply_modifier kc pressed s in
    if sc == 0xe0
    then record s { e0 = true }
    else if is_none kc
    then record s { e0 = false }
    else record (push (key_event kc pressed s₁) s₁) { e0 = false }

-- `keyboard_read`: the event, none when it returns false.
unfoldable pub keyboard_read : Keyboard → Option KeyEvent × Keyboard
keyboard_read s =
    if s.head == s.tail
    then (none, s)
    else (some (s.buffer s.tail), record s { tail = (s.tail + 1) % keyboard_buffer_size })
