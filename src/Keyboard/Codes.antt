-- ===== src/Keyboard/Codes.antt =====
-- The characters and the modifiers that key events carry, src/drivers/keyboard.c.
use dvivon_os.Base.{
  sym, ◌≤◌, refl, ==_of_ne, ◌∙◌, ap, ◌%◌, ◌≢◌, ◌+◌, ◌<◌, if◌then◌else◌, inl, inr, Bool-cases, arith,
  ltb, leb, not, ◌&&◌, ◌||◌, false, true, ◌==◌, ◌≡◌, Bool, ℕ,
}
use dvivon_os.Keyboard.{
  is_none, decode, decode_make, push, callback, decode_break, Keyboard, apply_modifier,
}
use dvivon_os.KeyCodes.{
  ascii_from_keycode, control_from_keycode, symbol_from_keycode, kc_ralt, kc_rctrl, kc_rshift,
  kc_caps, kc_lalt, kc_lctrl, kc_lshift, Key, letter_from_keycode,
}

-- The characters that the reader may see: none, backspace, tab, line feed, escape, or printable.
abbrev pub is_text : ℕ → Bool
is_text c = (c == 0) || (c == 8) || (c == 9) || (c == 10) || (c == 27) || (leb 32 c && ltb c 127)

lt→not_leb : (a b : ℕ) → a < b → leb b a ≡ false
lt→not_leb a b h = ground arith

le→leb : (a b : ℕ) → a ≤ b → leb a b ≡ true
le→leb a b h = ground arith

letter-is_text : (kc : Key) (shift caps : Bool) → is_text (letter_from_keycode kc shift caps) ≡ true
unfolding letter_from_keycode
letter-is_text _ true true = ground arith
letter-is_text _ true false = ground arith
letter-is_text _ false true = ground arith
letter-is_text _ false false = ground arith

symbol-is_text : (kc : Key) (shift : Bool) → is_text (symbol_from_keycode kc shift) ≡ true
unfolding symbol_from_keycode
symbol-is_text _ true = ground arith
symbol-is_text _ false = ground arith

control-is_text : (kc : Key) → is_text (control_from_keycode kc) ≡ true
unfolding control_from_keycode
control-is_text kc = ground arith

-- Every character that a key gives is one of backspace, tab, line feed and escape, or a printable ASCII
-- character, or 0 for a key that has none.
ascii-is_text :
    (kc : Key) (shift caps ctrl : Bool) → is_text (ascii_from_keycode kc shift caps ctrl) ≡ true
unfolding ascii_from_keycode
ascii-is_text kc shift caps ctrl = elim (Bool-cases (letter_from_keycode kc shift caps == 0)) [
  | inr f ↦ rw f (letter-is_text kc shift caps)
  | inl t ↦ elim (Bool-cases (symbol_from_keycode kc shift == 0)) [
    | inr f ↦ rw (t, f) (symbol-is_text kc shift)
    | inl u ↦ rw (t, u) (control-is_text kc)
  ]
]

unfoldable pub shift_of : Key → Bool
shift_of kc_lshift = true
shift_of kc_rshift = true
shift_of _ = false

unfoldable pub ctrl_of : Key → Bool
ctrl_of kc_lctrl = true
ctrl_of kc_rctrl = true
ctrl_of _ = false

unfoldable pub alt_of : Key → Bool
alt_of kc_lalt = true
alt_of kc_ralt = true
alt_of _ = false

unfoldable pub caps_of : Key → Bool
caps_of kc_caps = true
caps_of _ = false

-- The modifiers after a key was pressed and released.
abbrev pub Released : Key → Keyboard → Keyboard → Type 0
Released kc s s' =
    (s'.shift ≡ (s.shift && not (shift_of kc)))
    × (s'.ctrl ≡ (s.ctrl && not (ctrl_of kc)))
    × (s'.alt ≡ (s.alt && not (alt_of kc)))
    × (s'.caps ≡ (if caps_of kc then not s.caps else s.caps))

modifiers :
    (kc : Key) (s : Keyboard) → Released kc s (apply_modifier kc false (apply_modifier kc true s))
unfolding apply_modifier shift_of ctrl_of alt_of caps_of
modifiers _ s = ground arith

-- The make and the break code of a key.
abbrev press_and_release : ℕ → Keyboard → Keyboard
press_and_release sc s = callback (sc + 128) (callback sc s)

break_is_make : (b : Bool) (sc : ℕ) → sc < 128 → decode_break b (sc + 128) ≡ decode_make b sc
unfolding decode_break
break_is_make b sc lt = let e : (sc + 128) % 128 ≡ sc = omega arith in ap (decode_make b) e

-- Two states with the same modifiers.
abbrev Agree : Keyboard → Keyboard → Type 0
Agree s s' = (s'.shift ≡ s.shift) × (s'.ctrl ≡ s.ctrl) × (s'.alt ≡ s.alt) × (s'.caps ≡ s.caps)

apply_modifier-Agree :
    (kc : Key) (pressed : Bool) (s s' : Keyboard)
    → Agree s s'
    → Agree (apply_modifier kc pressed s) (apply_modifier kc pressed s')
unfolding apply_modifier
apply_modifier-Agree _ pressed s s' h = ground arith

apply_modifier_none :
    (kc : Key) (pressed : Bool) (s : Keyboard) → is_none kc ≡ true → apply_modifier kc pressed s ≡ s
unfolding apply_modifier
apply_modifier_none _ pressed s h = ground arith

-- A byte other than the prefix changes the modifiers as its key does.
callback-Agree :
    (sc : ℕ) (s : Keyboard) (kc : Key) (pressed : Bool)
    → (sc == 0xe0) ≡ false
    → decode sc s ≡ kc
    → not (leb 128 sc) ≡ pressed
    → Agree (apply_modifier kc pressed s) (callback sc s) × ((callback sc s).e0 ≡ false)
unfolding callback push
callback-Agree sc s kc pressed f key make = elim (Bool-cases (is_none kc)) [
  | inl t ↦ rw (f, key, t, apply_modifier_none kc pressed s t) ((refl, refl, refl, refl), refl)
  | inr g ↦ rw (f, key, g, make) ((refl, refl, refl, refl), refl)
]

Agree-Released : (kc : Key) (s t t' : Keyboard) → Agree t t' → Released kc s t → Released kc s t'
Agree-Released kc s t t' (a, b, c, d) (e, f, g, h) = (a ∙ e, b ∙ f, c ∙ g, d ∙ h)

decode_make_code : (sc : ℕ) (s : Keyboard) → sc < 128 → decode sc s ≡ decode_make s.e0 sc
decode_make_code sc s lt = rw (lt→not_leb sc 128 lt) refl

decode_break_code : (sc : ℕ) (s : Keyboard) → sc < 128 → decode (sc + 128) s ≡ decode_make s.e0 sc
decode_break_code sc s lt = rw (le→leb 128 (sc + 128) (omega arith)) (break_is_make s.e0 sc lt)

-- For a make code outside the extended set, other than 0x60 whose break code is the prefix 0xE0,
-- pressing and releasing the key leaves Shift, Ctrl and Alt released if the key is one of theirs and
-- unchanged otherwise, and Caps Lock toggled exactly by its key.
pub callback-Released :
    (sc : ℕ) (s : Keyboard)
    → sc < 128
    → sc ≢ 0x60
    → s.e0 ≡ false
    → Released (decode sc s) s (press_and_release sc s)
callback-Released sc s lt ne plain =
    let down = callback sc s in
    let kc = decode sc s in
    let make : not (leb 128 sc) ≡ true = rw (lt→not_leb sc 128 lt) refl in
    let break : not (leb 128 (sc + 128)) ≡ false = rw (le→leb 128 (sc + 128) (omega arith)) refl in
    let (down_lem, unprefixed) =
      callback-Agree sc s kc true (==_of_ne sc 0xe0 (λ e. omega arith)) refl make in
    let same : decode (sc + 128) down ≡ kc =
      decode_break_code sc down lt
      ∙ ap (λ b. decode_make b sc) (unprefixed ∙ sym plain)
      ∙ sym (decode_make_code sc s lt) in
    let (up_lem, _) =
      callback-Agree (sc + 128) down kc false (==_of_ne (sc + 128) 0xe0 (λ e. omega arith)) same
        break in
    let twice = apply_modifier-Agree kc false (apply_modifier kc true s) down down_lem in
    Agree-Released kc s (apply_modifier kc false down) (press_and_release sc s) up_lem (
      Agree-Released kc s (apply_modifier kc false (apply_modifier kc true s))
        (apply_modifier kc false down) twice (modifiers kc s))
