-- ===== src/Stdio.antt =====
-- src/lib/stdio.c: printing through an interface of function pointers, and printf.
-- A NULL pointer is `none`; the functions of an interface change the screen only. A string is the
-- list of its bytes up to the end of its array.
pub mod Digits
pub mod Numbers
pub mod Keeps
pub mod Ends
mod Tests
use dvivon_os.Vga.{writestring, putchar, clear, initialize, set_color, Vga}
use dvivon_os.Base.{
  not, zero, [], length, suc, take, true, ◌%◌, ◌&&◌, ◌-◌, ◌/◌, ◌||◌, false, if◌then◌else◌, leb, ltb,
  none, ◌+◌, ◌==◌, ◌^◌, ◌∷◌, Bool, List, Option, some, ℕ,
}
use dvivon_os.Str.{strlen}

pub record Interface : Type 0 where
  pub on_init : Option (Vga → Vga)
  pub on_clear : Option (Vga → Vga)
  pub on_putc : Option (ℕ → Vga → Vga)
  pub on_puts : Option (List ℕ → Vga → Vga)

-- `active_interface`, and the screen behind it.
pub record Stdio : Type 0 where
  pub active : Interface
  pub vga : Vga

abbrev pick {ℓ} : {A : Type ℓ} → Option A → Option A → Option A
pick (some a) old = some a
pick none old = old

pub set_interface : Option Interface → Stdio → Stdio
set_interface none s = s
set_interface (some i) s = record s {
  active = record {
    on_init = pick i.on_init s.active.on_init;
    on_clear = pick i.on_clear s.active.on_clear;
    on_putc = pick i.on_putc s.active.on_putc;
    on_puts = pick i.on_puts s.active.on_puts;
  };
}

-- The interface that `stdio_init` falls back to, and that src/prog/terminal.c installs.
abbrev pub vga_interface : Interface
vga_interface = record {
  on_init = some initialize;
  on_clear = some clear;
  on_putc = some putchar;
  on_puts = some writestring;
}

pub stdio_init : Stdio → Stdio
stdio_init s = elim s.active.on_init [
  | some f ↦ record s { vga = f s.vga }
  | none ↦ record { active = vga_interface; vga = initialize s.vga }
]

pub stdio_clear : Stdio → Stdio
stdio_clear s = elim s.active.on_clear [ some f ↦ record s { vga = f s.vga } | none ↦ s ]

pub putc : ℕ → Stdio → Stdio
putc c s = elim s.active.on_putc [ some f ↦ record s { vga = f c s.vga } | none ↦ s ]

pub puts : List ℕ → Stdio → Stdio
puts t s = elim s.active.on_puts [ some f ↦ record s { vga = f t s.vga } | none ↦ s ]

-- An int is its bit pattern, a number below 2^32. `/` and `%` round towards zero.
abbrev pub is_negative : ℕ → Bool
is_negative w = leb (2 ^ 31) w

abbrev pub negate : ℕ → ℕ
negate w = (2 ^ 32 - w) % 2 ^ 32

abbrev quot10 : ℕ → ℕ
quot10 w = if is_negative w then negate (negate w / 10) else w / 10

abbrev rem10 : ℕ → ℕ
rem10 w = if is_negative w then negate (negate w % 10) else w % 10

abbrev is_positive : ℕ → Bool
is_positive w = ltb 0 w && not (is_negative w)

-- The digits of `%d` and of `%x`: `buffer` has room for 20 of them, and is printed from its end, so
-- that the last digit found is the head of the list. `none` means that the buffer overflows.
pub decimal : (room val : ℕ) → List ℕ → Option (List ℕ)
decimal zero val out = none
decimal (suc room) val out =
    let buffer = (rem10 val + b'0') % 2 ^ 8 ∷ out in
    let rest = decimal room (quot10 val) buffer in
    if is_positive (quot10 val) then rest else some buffer

abbrev pub hex_digit : ℕ → ℕ
hex_digit d = if ltb d 10 then d + b'0' else d - 10 + b'a'

pub hexadecimal : (room val : ℕ) → List ℕ → Option (List ℕ)
hexadecimal zero val out = none
hexadecimal (suc room) val out =
    let buffer = hex_digit (val % 16) ∷ out in
    let rest = hexadecimal room (val / 16) buffer in if ltb 0 (val / 16) then rest else some buffer

pub put_bytes : List ℕ → Stdio → Stdio
put_bytes [] s = s
put_bytes (c ∷ t) s = put_bytes t (putc c s)

-- What stands behind the format: a 32-bit word, or a string.
pub data Arg : Type 0 where
  word : ℕ → Arg
  text : List ℕ → Arg

-- The state of the loop of `printf`: the arguments that are left and `count`.
abbrev pub Progress : Type 0
Progress = List Arg × ℕ × Stdio

-- The digits that a conversion found, printed.
put_digits : Option (List ℕ) → List Arg → ℕ → Stdio → Option Progress
put_digits none args n s = none
put_digits (some ds) args n s = some (args, n + length ds, put_bytes ds s)

put_decimal : ℕ → List Arg → ℕ → Stdio → Option Progress
put_decimal w args n s =
    if is_negative w
    then put_digits (decimal 20 (negate w) []) args (n + 1) (putc b'-' s)
    else put_digits (decimal 20 w []) args n s

-- The conversion behind a `%`. `none` where C leaves it open what happens: an argument that is missing
-- or of another type.
pub on_word : ℕ → ℕ → List Arg → ℕ → Stdio → Option Progress
on_word c w args n s =
    if c == b'c'
    then some (args, n + 1, putc (w % 2 ^ 8) s)
    else if c == b'd'
    then put_decimal w args n s
    else if c == b'x'
    then put_digits (hexadecimal 20 w []) args n s
    else some (args, n, record s { vga = set_color (w % 2 ^ 8) s.vga })

pub take_arg : ℕ → List Arg → ℕ → Stdio → Option Progress
take_arg c [] n s = none
take_arg c (word w ∷ args) n s = if c == b's' then none else on_word c w args n s
take_arg c (text t ∷ args) n s = if c == b's' then some (args, n + strlen t, puts t s) else none

abbrev takes_arg : ℕ → Bool
takes_arg c = c == b'c' || c == b's' || c == b'd' || c == b'x' || c == b'o'

pub convert : ℕ → List Arg → ℕ → Stdio → Option Progress
convert c args n s =
    if takes_arg c
    then take_arg c args n s
    else if c == b'%'
    then some (args, n + 1, putc b'%' s)
    else some (args, n + 2, putc c (putc b'%' s))

-- The loop of `printf` over the bytes before the NUL; the flag says that the last one was a `%`. A
-- format that ends in a `%` makes the loop run past its NUL, which is `none`.
pub format_from : Bool → List ℕ → List Arg → ℕ → Stdio → Option (ℕ × Stdio)
format_from true [] args n s = none
format_from false [] args n s = some (n, s)
format_from true (c ∷ f) args n s = elim (convert c args n s) [
  | none ↦ none
  | some (args', n', s') ↦ format_from false f args' n' s'
]
format_from false (c ∷ f) args n s =
    let begin = format_from true f args n s in
    let plain = format_from false f args (n + 1) (putc c s) in if c == b'%' then begin else plain

-- `vga_set_color(vga_color)` at the end.
restore : ℕ → Option (ℕ × Stdio) → Option (ℕ × Stdio)
restore color none = none
restore color (some (n, s)) = some (n, record s { vga = set_color color s.vga })

pub printf : List ℕ → List Arg → Stdio → Option (ℕ × Stdio)
unfolding restore
printf f args s = restore s.vga.color (format_from false (take (strlen f) f) args 0 s)
