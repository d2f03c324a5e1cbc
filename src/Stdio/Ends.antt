-- ===== src/Stdio/Ends.antt =====
-- When printf of src/lib/stdio.c comes to an end: every conversion finds its argument.
use dvivon_os.Stdio.Digits.{decimal_lem, hexadecimal_lem}
use dvivon_os.Base.{
  sym, Option-cases, take, subst, inr, ◌∙◌, ap, inl, Bool-cases, ◌%◌, length, arith, refl, ◌+◌,
  some, ◌||◌, true, ◌<◌, ◌==◌, ◌≡◌, [], false, if◌then◌else◌, none, ◌∷◌, Option, ◌^◌, Bool, List, ℕ,
}
use mathlib.Core.Bool.{false≢true}
use dvivon_os.Stdio.{
  format_from, printf, restore, puts, convert, negate, hexadecimal, put_bytes, putc, is_negative,
  text, word, Progress, Stdio, Arg, decimal, on_word, put_decimal, put_digits, take_arg,
}
use dvivon_os.Str.{strlen}
use dvivon_os.Vga.{set_color}
use native.Mathlib.Decide.{dec_lt}

-- The arguments that are words of 32 bits.
abbrev pub AllWords : List Arg → Type 0
AllWords [] = Unit {0}
AllWords (word w ∷ args) = (w < 2 ^ 32) × AllWords args
AllWords (text t ∷ args) = AllWords args

-- The arguments that the conversion c leaves; `none` where its argument is missing or of another type.
abbrev pub leaves : ℕ → List Arg → Option (List Arg)
leaves c [] = none
leaves c (word w ∷ args) = if c == b's' then none else some args
leaves c (text t ∷ args) = if c == b's' then some args else none

abbrev pub leaves_of : ℕ → List Arg → Option (List Arg)
leaves_of c args =
    if c == b'c' || c == b's' || c == b'd' || c == b'x' || c == b'o'
    then leaves c args
    else some args

-- Whether the arguments serve a format; the flag says that the last byte was a `%`.
unfoldable pub serves : Bool → List ℕ → List Arg → Bool
serves true [] args = false
serves false [] args = true
serves true (c ∷ f) args = elim (leaves_of c args) [
  | none ↦ false
  | some args' ↦ serves false f args'
]
serves false (c ∷ f) args =
    let begin = serves true f args in
    let plain = serves false f args in if c == b'%' then begin else plain

-- A conversion ends with the arguments that are left.
abbrev EndsWith : List Arg → Option Progress → Type 0
EndsWith args o = (n : ℕ) × (s : Stdio) × (o ≡ some (args, n, s))

put_digits-EndsWith :
    (o : Option (List ℕ)) {ds : List ℕ} (args : List Arg) (n : ℕ) (s : Stdio)
    → o ≡ some ds
    → EndsWith args (put_digits o args n s)
unfolding put_digits
put_digits-EndsWith o {ds} args n s e =
    (n + length ds, put_bytes ds s, ap (λ r. put_digits r args n s) e)

-- The least int is the only number whose negation is negative: its loop stops after one round.
least_lem : decimal 20 (2 ^ 31) [] ≡ some (b'(' ∷ [])
unfolding decimal
least_lem = refl

put_decimal-EndsWith :
    (w : ℕ) (args : List Arg) (n : ℕ) (s : Stdio)
    → w < 2 ^ 32
    → EndsWith args (put_decimal w args n s)
unfolding put_decimal
put_decimal-EndsWith w args n s lt = elim (dec_lt w (2 ^ 31)) [
  | yes small ↦
      let plain : is_negative w ≡ false = ground arith in
      let (t, e, _, _, _, _) = decimal_lem 19 w [] small (omega arith) tt in
      rw plain (put_digits-EndsWith (decimal 20 w []) args n s e)
  | no big ↦
      let minus : is_negative w ≡ true = ground arith in
      rw minus (elim (Bool-cases (w == 2 ^ 31)) [
        | inl least ↦
            let m : negate w ≡ 2 ^ 31 = ground arith in
            put_digits-EndsWith (decimal 20 (negate w) []) args (n + 1) (putc b'-' s)
              (ap (λ k. decimal 20 k []) m ∙ least_lem)
        | inr other ↦
            let (t, e, _, _, _, _) =
              decimal_lem 19 (negate w) [] (ground arith) (ground arith) tt in
            put_digits-EndsWith (decimal 20 (negate w) []) args (n + 1) (putc b'-' s) e
      ])
]

if-EndsWith :
    (b : Bool) (args : List Arg) (o r : Option Progress)
    → EndsWith args o
    → EndsWith args r
    → EndsWith args (if b then o else r)
if-EndsWith true args o r h k = h
if-EndsWith false args o r h k = k

on_word-EndsWith :
    (c w : ℕ) (args : List Arg) (n : ℕ) (s : Stdio)
    → w < 2 ^ 32
    → EndsWith args (on_word c w args n s)
unfolding on_word
on_word-EndsWith c w args n s lt =
    let (t, e, _, _, _) = hexadecimal_lem 19 w [] (omega arith) tt in
    if-EndsWith (c == b'c') args _ _ (n + 1, putc (w % 2 ^ 8) s, refl)
      (if-EndsWith (c == b'd') args _ _ (put_decimal-EndsWith w args n s lt) (
        if-EndsWith (c == b'x') args _ _ (put_digits-EndsWith (hexadecimal 20 w []) args n s e)
          (n, record s { vga = set_color (w % 2 ^ 8) s.vga }, refl)))

take_arg-EndsWith :
    (c : ℕ) (args : List Arg) {args' : List Arg} (n : ℕ) (s : Stdio)
    → AllWords args
    → leaves c args ≡ some args'
    → EndsWith args' (take_arg c args n s)
unfolding take_arg
take_arg-EndsWith c [] n s h e = absurd (ground arith)
take_arg-EndsWith c (word w ∷ args) {args'} n s h e = elim (Bool-cases (c == b's')) [
  | inl is_s ↦ absurd (ground arith)
  | inr no_s ↦
      let same : args ≡ args' = ground arith in
      rw no_s
        (subst (λ a. EndsWith a (on_word c w args n s)) same (on_word-EndsWith c w args n s h.0))
]
take_arg-EndsWith c (text t ∷ args) {args'} n s h e = elim (Bool-cases (c == b's')) [
  | inl is_s ↦
      let same : args ≡ args' = ground arith in
      rw is_s (n + strlen t, puts t s, ap (λ a. some (a, n + strlen t, puts t s)) same)
  | inr no_s ↦ absurd (ground arith)
]

convert-EndsWith :
    (c : ℕ) (args : List Arg) {args' : List Arg} (n : ℕ) (s : Stdio)
    → AllWords args
    → leaves_of c args ≡ some args'
    → EndsWith args' (convert c args n s)
unfolding convert
convert-EndsWith c args {args'} n s h e =
    elim (Bool-cases (c == b'c' || c == b's' || c == b'd' || c == b'x' || c == b'o')) [
      | inl takes ↦ rw takes (take_arg-EndsWith c args n s h (rw takes at e))
      | inr plain ↦
          let left : some args ≡ some args' = rw plain at e in
          let same : args ≡ args' = cc in
          rw plain (
            subst
              (λ a. EndsWith a (
                if c == b'%'
                then some (args, n + 1, putc b'%' s)
                else some (args, n + 2, putc c (putc b'%' s))))
              same
              (if-EndsWith (c == b'%') args _ _ (n + 1, putc b'%' s, refl)
                (n + 2, putc c (putc b'%' s), refl)))
    ]

abbrev LeftWords : Option (List Arg) → Type 0
LeftWords none = Unit {0}
LeftWords (some args) = AllWords args

if-LeftWords :
    (b : Bool) (o r : Option (List Arg))
    → LeftWords o
    → LeftWords r
    → LeftWords (if b then o else r)
if-LeftWords true o r h k = h
if-LeftWords false o r h k = k

leaves-LeftWords : (c : ℕ) (args : List Arg) → AllWords args → LeftWords (leaves c args)
leaves-LeftWords c [] h = tt
leaves-LeftWords c (word w ∷ args) h = if-LeftWords (c == b's') _ _ tt h.1
leaves-LeftWords c (text t ∷ args) h = if-LeftWords (c == b's') _ _ h tt

leaves-AllWords :
    (c : ℕ) (args : List Arg) {args' : List Arg}
    → AllWords args
    → leaves_of c args ≡ some args'
    → AllWords args'
leaves-AllWords c args h e = subst LeftWords e (
    if-LeftWords (c == b'c' || c == b's' || c == b'd' || c == b'x' || c == b'o') _ _
      (leaves-LeftWords c args h) h)

serves_rest : List ℕ → Option (List Arg) → Bool
serves_rest f none = false
serves_rest f (some args) = serves false f args

serves-cons :
    (c : ℕ) (f : List ℕ) (args : List Arg)
    → serves true (c ∷ f) args ≡ serves_rest f (leaves_of c args)
unfolding serves serves_rest
serves-cons c f args = elim (Option-cases (leaves_of c args)) [
  | inl missing ↦ rw (missing, serves)
  | inr (args', left) ↦ rw (left, serves)
]

abbrev Ends : Option (ℕ × Stdio) → Type 0
Ends o = (r : ℕ × Stdio) × (o ≡ some r)

format_from-Ends :
    (b : Bool) (f : List ℕ) (args : List Arg) (n : ℕ) (s : Stdio)
    → AllWords args
    → serves b f args ≡ true
    → Ends (format_from b f args n s)
unfolding format_from serves serves_rest
format_from-Ends true [] args n s h e = absurd (false≢true e)
format_from-Ends false [] args n s h e = ((n, s), refl)
format_from-Ends true (c ∷ f) args n s h e = elim (Option-cases (leaves_of c args)) [
  | inl missing ↦ absurd (false≢true (sym (serves-cons c f args ∙ ap (serves_rest f) missing) ∙ e))
  | inr (args', left) ↦
      let (n', s', done) = convert-EndsWith c args n s h left in
      rw (done, format_from)
        (format_from-Ends false f args' n' s' (leaves-AllWords c args h left)
          (sym (serves-cons c f args ∙ ap (serves_rest f) left) ∙ e))
]
format_from-Ends false (c ∷ f) args n s h e = elim (Bool-cases (c == b'%')) [
  | inl begin ↦ rw begin (format_from-Ends true f args n s h (rw begin at e))
  | inr plain ↦ rw plain (format_from-Ends false f args (n + 1) (putc c s) h (rw plain at e))
]

restore-Ends : (color : ℕ) (o : Option (ℕ × Stdio)) → Ends o → Ends (restore color o)
unfolding restore
restore-Ends color o ((n, s), e) =
    ((n, record s { vga = set_color color s.vga }), ap (restore color) e)

-- `printf` comes to an end, inside its buffer for digits, on 32-bit words and strings that serve its
-- format: each `%c`, `%d`, `%x` and `%o` finds a word and each `%s` a string, in turn, and the format
-- does not end in a `%`.
pub printf-Ends :
    (f : List ℕ) (args : List Arg) (s : Stdio)
    → AllWords args
    → serves false (take (strlen f) f) args ≡ true
    → (r : ℕ × Stdio) × (printf f args s ≡ some r)
unfolding printf
printf-Ends f args s h e =
    restore-Ends s.vga.color (format_from false (take (strlen f) f) args 0 s)
      (format_from-Ends false (take (strlen f) f) args 0 s h e)
