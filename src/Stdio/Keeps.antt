-- ===== src/Stdio/Keeps.antt =====
-- Printing of src/lib/stdio.c through the functions of the screen keeps the screen in order.
use dvivon_os.Vga.Screen.{OnScreen}
use dvivon_os.Vga.{initialize, putchar, Vga, set_color}
use dvivon_os.Stdio.{
  set_interface, stdio_init, negate, decimal, hexadecimal, is_negative, text, takes_arg, word, Arg,
  vga_interface, Progress, Stdio, convert, format_from, on_word, printf, put_bytes, put_decimal,
  put_digits, putc, puts, restore, take_arg,
}
use dvivon_os.Vga.Cursor.{set_color-OnScreen, putchar-OnScreen, writestring-OnScreen}
use dvivon_os.Base.{
  inr, ◌+◌, arith, inl, [], refl, take, ◌%◌, Bool-cases, ap, false, none, sym, true, ◌==◌, ◌^◌,
  if◌then◌else◌, some, subst, ◌<◌, ◌∷◌, List, ℕ, ◌≡◌, Bool, Option,
}
use dvivon_os.Str.{strlen}

-- The screen is in order, and the interface is that of the screen.
pub record Ready (s : Stdio) : Type 0 where
  pub is_screen : s.active ≡ vga_interface
  pub on_screen : OnScreen s.vga

-- The screen behind an interface that is that of the screen.
putc-vga :
    (c : ℕ) (v : Vga)
    → putc c (record { active = vga_interface; vga = v })
      ≡ record { active = vga_interface; vga = putchar c v }
unfolding putc
putc-vga c v = refl

pub Ready-eq : (s : Stdio) → Ready s → s ≡ record { active = vga_interface; vga = s.vga }
Ready-eq s h = ap (λ a. record { active = a; vga = s.vga }) h.is_screen

pub putc-Ready : (c : ℕ) (s : Stdio) → Ready s → Ready (putc c s)
unfolding putc
putc-Ready c s h =
    subst (λ t. Ready (putc c t)) (sym (Ready-eq s h))
      (record { is_screen = refl; on_screen = (putchar-OnScreen c s.vga h.on_screen).0 })

pub puts-Ready : (t : List ℕ) (s : Stdio) → Ready s → Ready (puts t s)
unfolding puts
puts-Ready t s h =
    subst (λ u. Ready (puts t u)) (sym (Ready-eq s h))
      (record { is_screen = refl; on_screen = (writestring-OnScreen t s.vga h.on_screen).0 })

put_bytes-Ready : (t : List ℕ) (s : Stdio) → Ready s → Ready (put_bytes t s)
unfolding put_bytes
put_bytes-Ready [] s h = h
put_bytes-Ready (c ∷ t) s h = put_bytes-Ready t (putc c s) (putc-Ready c s h)

color-Ready :
    (color : ℕ) (s : Stdio)
    → color < 2 ^ 8
    → Ready s
    → Ready (record s { vga = set_color color s.vga })
color-Ready color s lt h = record {
  is_screen = h.is_screen;
  on_screen = set_color-OnScreen color s.vga lt h.on_screen;
}

-- A conversion that comes to an end leaves the screen in order.
abbrev Keeps : Option Progress → Type 0
Keeps none = Unit {0}
Keeps (some (args, n, s)) = Ready s

put_digits-Keeps :
    (o : Option (List ℕ)) (args : List Arg) (n : ℕ) (s : Stdio)
    → Ready s
    → Keeps (put_digits o args n s)
unfolding put_digits
put_digits-Keeps none args n s h = tt
put_digits-Keeps (some ds) args n s h = put_bytes-Ready ds s h

put_decimal-Keeps :
    (w : ℕ) (args : List Arg) (n : ℕ) (s : Stdio) → Ready s → Keeps (put_decimal w args n s)
unfolding put_decimal
put_decimal-Keeps w args n s h = elim (Bool-cases (is_negative w)) [
  | inl minus ↦
      rw minus (
        put_digits-Keeps (decimal 20 (negate w) []) args (n + 1) (putc b'-' s)
          (putc-Ready b'-' s h))
  | inr plain ↦ rw plain (put_digits-Keeps (decimal 20 w []) args n s h)
]

if-Keeps : (b : Bool) (o r : Option Progress) → Keeps o → Keeps r → Keeps (if b then o else r)
if-Keeps true o r h k = h
if-Keeps false o r h k = k

on_word-Keeps :
    (c w : ℕ) (args : List Arg) (n : ℕ) (s : Stdio) → Ready s → Keeps (on_word c w args n s)
unfolding on_word
on_word-Keeps c w args n s h = if-Keeps (c == b'c') _ _ (putc-Ready (w % 2 ^ 8) s h) (
    if-Keeps (c == b'd') _ _ (put_decimal-Keeps w args n s h) (
      if-Keeps (c == b'x') _ _ (put_digits-Keeps (hexadecimal 20 w []) args n s h)
        (color-Ready (w % 2 ^ 8) s (omega arith) h)))

take_arg-Keeps :
    (c : ℕ) (args : List Arg) (n : ℕ) (s : Stdio) → Ready s → Keeps (take_arg c args n s)
unfolding take_arg
take_arg-Keeps c [] n s h = tt
take_arg-Keeps c (word w ∷ args) n s h = if-Keeps (c == b's') _ _ tt (on_word-Keeps c w args n s h)
take_arg-Keeps c (text t ∷ args) n s h = if-Keeps (c == b's') _ _ (puts-Ready t s h) tt

convert-Keeps : (c : ℕ) (args : List Arg) (n : ℕ) (s : Stdio) → Ready s → Keeps (convert c args n s)
unfolding convert
convert-Keeps c args n s h = if-Keeps (takes_arg c) _ _ (take_arg-Keeps c args n s h) (
    if-Keeps (c == b'%') _ _ (putc-Ready b'%' s h)
      (putc-Ready c (putc b'%' s) (putc-Ready b'%' s h)))

abbrev KeepsResult : Option (ℕ × Stdio) → Type 0
KeepsResult none = Unit {0}
KeepsResult (some (n, s)) = Ready s

if-KeepsResult :
    (b : Bool) (o r : Option (ℕ × Stdio))
    → KeepsResult o
    → KeepsResult r
    → KeepsResult (if b then o else r)
if-KeepsResult true o r h k = h
if-KeepsResult false o r h k = k

then-Keeps :
    (g : List Arg → ℕ → Stdio → Option (ℕ × Stdio))
    → ((args : List Arg) (n : ℕ) (s : Stdio) → Ready s → KeepsResult (g args n s))
    → (o : Option Progress) → Keeps o
    → KeepsResult (elim o [ none ↦ none | some (args, n, s) ↦ g args n s ])
then-Keeps g all none h = tt
then-Keeps g all (some (args, n, s)) h = all args n s h

format_from-Keeps :
    (b : Bool) (f : List ℕ) (args : List Arg) (n : ℕ) (s : Stdio)
    → Ready s
    → KeepsResult (format_from b f args n s)
unfolding format_from
format_from-Keeps true [] args n s h = tt
format_from-Keeps false [] args n s h = h
format_from-Keeps true (c ∷ f) args n s h =
    then-Keeps (format_from false f) (λ args' n' s' k. format_from-Keeps false f args' n' s' k)
      (convert c args n s) (convert-Keeps c args n s h)
format_from-Keeps false (c ∷ f) args n s h =
    if-KeepsResult (c == b'%') _ _ (format_from-Keeps true f args n s h)
      (format_from-Keeps false f args (n + 1) (putc c s) (putc-Ready c s h))

restore-Keeps :
    (color : ℕ) (r : Option (ℕ × Stdio))
    → color < 2 ^ 8
    → KeepsResult r
    → KeepsResult (restore color r)
unfolding restore
restore-Keeps color none lt h = tt
restore-Keeps color (some (n, s)) lt h = color-Ready color s lt h

-- On the interface of the screen a printf that comes to an end leaves the screen in order, whatever
-- the format and the arguments are.
pub printf-Ready :
    (f : List ℕ) (args : List Arg) (s : Stdio) {n : ℕ} {s' : Stdio}
    → Ready s
    → printf f args s ≡ some (n, s')
    → Ready s'
unfolding printf
printf-Ready f args s h e = subst KeepsResult e (
    restore-Keeps s.vga.color (format_from false (take (strlen f) f) args 0 s) h.on_screen.color_lt
      (format_from-Keeps false (take (strlen f) f) args 0 s h))

-- `stdio_init` behind `stdio_set_interface(&vga_interface)` starts the screen.
pub init-screen :
    (s : Stdio)
    → stdio_init (set_interface (some vga_interface) s)
      ≡ record { active = vga_interface; vga = initialize s.vga }
unfolding stdio_init set_interface
init-screen s = refl
