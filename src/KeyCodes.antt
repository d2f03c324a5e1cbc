-- ===== src/KeyCodes.antt =====
-- The key codes of src/include/drivers/keyboard.h and the tables of src/drivers/keyboard.c: scan codes
-- to keys, and keys to characters.
use mathlib.Core.Bool.{xor}
use dvivon_os.Base.{Bool, List, [], ◌∷◌, ℕ, if◌then◌else◌, ◌==◌, not}

pub data Key : Type 0 where
  kc_none kc_esc kc_f1 kc_f2 kc_f3 kc_f4 kc_f5 kc_f6 kc_f7 kc_f8 kc_f9 kc_f10 kc_f11 kc_f12 : Key
  kc_grave kc_1 kc_2 kc_3 kc_4 kc_5 kc_6 kc_7 kc_8 kc_9 kc_0 kc_minus kc_equal kc_bspc kc_tab : Key
  kc_q kc_w kc_e kc_r kc_t kc_y kc_u kc_i kc_o kc_p kc_lbr kc_rbr kc_enter kc_lctrl kc_a kc_s : Key
  kc_d kc_f kc_g kc_h kc_j kc_k kc_l kc_semi kc_apos kc_bslash kc_lshift kc_z kc_x kc_c kc_v : Key
  kc_b kc_n kc_m kc_comma kc_dot kc_slash kc_rshift kc_kp_star kc_lalt kc_space kc_caps kc_home :
      Key
  kc_up kc_pgup kc_left kc_right kc_end kc_down kc_pgdn kc_ins kc_del kc_rctrl kc_ralt : Key

-- `sc1_to_keycode`: the entries that are written out; the others of the 128 are zero, `KC_NONE`.
abbrev pub sc1_to_keycode : List Key
sc1_to_keycode =
    kc_none ∷ kc_esc ∷ kc_1 ∷ kc_2 ∷ kc_3 ∷ kc_4 ∷ kc_5 ∷ kc_6 ∷ kc_7 ∷ kc_8 ∷ kc_9 ∷ kc_0
    ∷ kc_minus ∷ kc_equal ∷ kc_bspc ∷ kc_tab ∷ kc_q ∷ kc_w ∷ kc_e ∷ kc_r ∷ kc_t ∷ kc_y ∷ kc_u ∷ kc_i
    ∷ kc_o ∷ kc_p ∷ kc_lbr ∷ kc_rbr ∷ kc_enter ∷ kc_lctrl ∷ kc_a ∷ kc_s ∷ kc_d ∷ kc_f ∷ kc_g ∷ kc_h
    ∷ kc_j ∷ kc_k ∷ kc_l ∷ kc_semi ∷ kc_apos ∷ kc_grave ∷ kc_lshift ∷ kc_bslash ∷ kc_z ∷ kc_x ∷ kc_c
    ∷ kc_v ∷ kc_b ∷ kc_n ∷ kc_m ∷ kc_comma ∷ kc_dot ∷ kc_slash ∷ kc_rshift ∷ kc_kp_star ∷ kc_lalt
    ∷ kc_space ∷ kc_caps ∷ kc_f1 ∷ kc_f2 ∷ kc_f3 ∷ kc_f4 ∷ kc_f5 ∷ kc_f6 ∷ kc_f7 ∷ kc_f8 ∷ kc_f9
    ∷ kc_f10 ∷ kc_none ∷ kc_none ∷ kc_none ∷ kc_none ∷ kc_none ∷ kc_none ∷ kc_none ∷ kc_none
    ∷ kc_none ∷ kc_none ∷ kc_none ∷ kc_none ∷ kc_none ∷ kc_none ∷ kc_none ∷ kc_none ∷ kc_none
    ∷ kc_none ∷ kc_none ∷ kc_none ∷ kc_none ∷ kc_none ∷ kc_none ∷ kc_none ∷ kc_none ∷ kc_none
    ∷ kc_none ∷ []

-- `_e0_map`
unfoldable pub e0_map : ℕ → Key
e0_map sc =
    if sc == 0x1d
    then kc_rctrl
    else if sc == 0x38
    then kc_ralt
    else if sc == 0x47
    then kc_home
    else if sc == 0x48
    then kc_up
    else if sc == 0x49
    then kc_pgup
    else if sc == 0x4b
    then kc_left
    else if sc == 0x4d
    then kc_right
    else if sc == 0x4f
    then kc_end
    else if sc == 0x50
    then kc_down
    else if sc == 0x51
    then kc_pgdn
    else if sc == 0x52
    then kc_ins
    else if sc == 0x53
    then kc_del
    else kc_none

-- `_letter_from_keycode`: letters honour caps XOR shift.
unfoldable pub letter_from_keycode : Key → (shift caps : Bool) → ℕ
letter_from_keycode kc_a shift caps = if xor shift caps then b'A' else b'a'
letter_from_keycode kc_b shift caps = if xor shift caps then b'B' else b'b'
letter_from_keycode kc_c shift caps = if xor shift caps then b'C' else b'c'
letter_from_keycode kc_d shift caps = if xor shift caps then b'D' else b'd'
letter_from_keycode kc_e shift caps = if xor shift caps then b'E' else b'e'
letter_from_keycode kc_f shift caps = if xor shift caps then b'F' else b'f'
letter_from_keycode kc_g shift caps = if xor shift caps then b'G' else b'g'
letter_from_keycode kc_h shift caps = if xor shift caps then b'H' else b'h'
letter_from_keycode kc_i shift caps = if xor shift caps then b'I' else b'i'
letter_from_keycode kc_j shift caps = if xor shift caps then b'J' else b'j'
letter_from_keycode kc_k shift caps = if xor shift caps then b'K' else b'k'
letter_from_keycode kc_l shift caps = if xor shift caps then b'L' else b'l'
letter_from_keycode kc_m shift caps = if xor shift caps then b'M' else b'm'
letter_from_keycode kc_n shift caps = if xor shift caps then b'N' else b'n'
letter_from_keycode kc_o shift caps = if xor shift caps then b'O' else b'o'
letter_from_keycode kc_p shift caps = if xor shift caps then b'P' else b'p'
letter_from_keycode kc_q shift caps = if xor shift caps then b'Q' else b'q'
letter_from_keycode kc_r shift caps = if xor shift caps then b'R' else b'r'
letter_from_keycode kc_s shift caps = if xor shift caps then b'S' else b's'
letter_from_keycode kc_t shift caps = if xor shift caps then b'T' else b't'
letter_from_keycode kc_u shift caps = if xor shift caps then b'U' else b'u'
letter_from_keycode kc_v shift caps = if xor shift caps then b'V' else b'v'
letter_from_keycode kc_w shift caps = if xor shift caps then b'W' else b'w'
letter_from_keycode kc_x shift caps = if xor shift caps then b'X' else b'x'
letter_from_keycode kc_y shift caps = if xor shift caps then b'Y' else b'y'
letter_from_keycode kc_z shift caps = if xor shift caps then b'Z' else b'z'
letter_from_keycode _ shift caps = 0

-- `_symbol_from_keycode`
unfoldable pub symbol_from_keycode : Key → (shift : Bool) → ℕ
symbol_from_keycode kc_1 shift = if shift then b'!' else b'1'
symbol_from_keycode kc_2 shift = if shift then b'@' else b'2'
symbol_from_keycode kc_3 shift = if shift then b'#' else b'3'
symbol_from_keycode kc_4 shift = if shift then b'$' else b'4'
symbol_from_keycode kc_5 shift = if shift then b'%' else b'5'
symbol_from_keycode kc_6 shift = if shift then b'^' else b'6'
symbol_from_keycode kc_7 shift = if shift then b'&' else b'7'
symbol_from_keycode kc_8 shift = if shift then b'*' else b'8'
symbol_from_keycode kc_9 shift = if shift then b'(' else b'9'
symbol_from_keycode kc_0 shift = if shift then b')' else b'0'
symbol_from_keycode kc_minus shift = if shift then b'_' else b'-'
symbol_from_keycode kc_equal shift = if shift then b'+' else b'='
symbol_from_keycode kc_lbr shift = if shift then b'{' else b'['
symbol_from_keycode kc_rbr shift = if shift then b'}' else b']'
symbol_from_keycode kc_bslash shift = if shift then b'|' else 92
symbol_from_keycode kc_semi shift = if shift then b':' else b';'
symbol_from_keycode kc_apos shift = if shift then b'"' else 39
symbol_from_keycode kc_grave shift = if shift then b'~' else b'`'
symbol_from_keycode kc_comma shift = if shift then b'<' else b','
symbol_from_keycode kc_dot shift = if shift then b'>' else b'.'
symbol_from_keycode kc_slash shift = if shift then b'?' else b'/'
symbol_from_keycode kc_space shift = b' '
symbol_from_keycode _ shift = 0

-- The last switch of `_ascii_from_keycode`.
unfoldable pub control_from_keycode : Key → ℕ
control_from_keycode kc_enter = 10
control_from_keycode kc_tab = 9
control_from_keycode kc_bspc = 8
control_from_keycode kc_esc = 27
control_from_keycode _ = 0

-- `_ascii_from_keycode`; the state of Ctrl is passed and not used.
unfoldable pub ascii_from_keycode : Key → (shift caps ctrl : Bool) → ℕ
ascii_from_keycode kc shift caps ctrl =
    let letter = letter_from_keycode kc shift caps in
    let symbol = symbol_from_keycode kc shift in
    if not (letter == 0)
    then letter
    else if not (symbol == 0)
    then symbol
    else control_from_keycode kc
