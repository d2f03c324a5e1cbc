-- ===== src/Stdio/Numbers.antt =====
-- The numbers that printf of src/lib/stdio.c prints read back as the numbers that it was given.
use dvivon_os.Stdio.Digits.{
  hexadecimal_lem, decimal_value, hex_value, IsDecimal, IsHex, decimal_lem, IsShortest,
  StartsPositive,
}
use dvivon_os.Stdio.{
  putc, restore, negate, is_negative, word, put_digits, put_decimal, on_word, take_arg, convert,
  format_from, put_bytes, Stdio, printf, hexadecimal, decimal,
}
use dvivon_os.Base.{
  none, refl, false, true, ◌≢◌, ◌⊎◌, ◌∙◌, Option, ap, inr, inl, arith, length, some, [], ◌+◌, ◌-◌,
  ◌≡◌, ◌^◌, ◌≤◌, ◌<◌, ◌∷◌, List, ℕ,
}
use dvivon_os.Str.{strlen}
use dvivon_os.Vga.{set_color}
use native.Mathlib.Decide.{dec_lt}

-- What a decimal conversion of the int with pattern w prints: its digits with no zero in front, behind a
-- minus sign where it is negative.
abbrev pub SpellsInt : ℕ → List ℕ → Type 0
SpellsInt w t =
    ((w < 2 ^ 31) × IsDecimal t × IsShortest t × (decimal_value 0 t ≡ w))
    ⊎ ((2 ^ 31 < w)
        × ((ds : List ℕ) × (t ≡ b'-' ∷ ds)
            × IsDecimal ds
            × IsShortest ds
            × (decimal_value 0 ds ≡ 2 ^ 32 - w)))

shortest : (val : ℕ) (s : List ℕ) → ((val ≡ 0) × (s ≡ b'0' ∷ [])) ⊎ StartsPositive s → IsShortest s
shortest val s (inl (z, e)) = inl e
shortest val s (inr h) = inr h

-- The state after `printf` printed t by `putc`.
abbrev pub printed : List ℕ → Stdio → Option (ℕ × Stdio)
printed t s =
    let s' = put_bytes t s in some (length t, record s' { vga = set_color s.vga.color s'.vga })

abbrev pub conversion : ℕ → List ℕ
conversion c = b'%' ∷ c ∷ []

-- A format that is one conversion of a number.
printf-d :
    (w n : ℕ) (s s' : Stdio)
    → put_decimal w [] 0 s ≡ some ([], n, s')
    → printf (conversion b'd') (word w ∷ []) s
      ≡ some (n, record s' { vga = set_color s.vga.color s'.vga })
unfolding printf format_from convert take_arg on_word strlen restore
printf-d w n s s' h = λ i.
    restore s.vga.color
      (elim (h i) [ none ↦ none | some (args, n', s'') ↦ format_from false [] args n' s'' ])

printf-x :
    (w n : ℕ) (s s' : Stdio)
    → put_digits (hexadecimal 20 w []) [] 0 s ≡ some ([], n, s')
    → printf (conversion b'x') (word w ∷ []) s
      ≡ some (n, record s' { vga = set_color s.vga.color s'.vga })
unfolding printf format_from convert take_arg on_word strlen restore
printf-x w n s s' h = λ i.
    restore s.vga.color
      (elim (h i) [ none ↦ none | some (args, n', s'') ↦ format_from false [] args n' s'' ])

put_digits_lem :
    (n : ℕ) (s : Stdio) {o : Option (List ℕ)} {t : List ℕ}
    → o ≡ some t
    → put_digits o [] n s ≡ some ([], n + length t, put_bytes t s)
unfolding put_digits
put_digits_lem n s {o} {t} e = ap (λ r. put_digits r [] n s) e

put_decimal-positive :
    (w : ℕ) (s : Stdio) {t : List ℕ}
    → w < 2 ^ 31
    → decimal 20 w [] ≡ some t
    → put_decimal w [] 0 s ≡ some ([], 0 + length t, put_bytes t s)
unfolding put_decimal
put_decimal-positive w s h e =
    let plain : is_negative w ≡ false = ground arith in rw plain (put_digits_lem 0 s e)

put_decimal-negative :
    (w : ℕ) (s : Stdio) {t : List ℕ}
    → 2 ^ 31 ≤ w
    → decimal 20 (negate w) [] ≡ some t
    → put_decimal w [] 0 s ≡ some ([], 0 + 1 + length t, put_bytes (b'-' ∷ t) s)
unfolding put_decimal put_bytes
put_decimal-negative w s h e =
    let minus : is_negative w ≡ true = ground arith in rw minus (put_digits_lem 1 (putc b'-' s) e)

-- The count of `printed`.
counted :
    (t : List ℕ) (n : ℕ) (s : Stdio)
    → n ≡ length t
    → some (n, record (put_bytes t s) { vga = set_color s.vga.color (put_bytes t s).vga })
      ≡ printed t s
counted t n s e =
    ap (λ m. some (m, record (put_bytes t s) { vga = set_color s.vga.color (put_bytes t s).vga })) e

-- `printf("%d", i)` for every int but the least one prints the digits of i with no zero in front (a zero
-- alone for 0), behind a minus sign where i is negative, gives back the number of bytes that it printed, and restores the colour.
pub printf-decimal :
    (w : ℕ) (s : Stdio)
    → w < 2 ^ 32
    → w ≢ 2 ^ 31
    → (t : List ℕ) × SpellsInt w t × (printf (conversion b'd') (word w ∷ []) s ≡ printed t s)
printf-decimal w s fits least = elim (dec_lt w (2 ^ 31)) [
  | yes lt ↦
      let (t, e, v, d, p, l) = decimal_lem 19 w [] lt (omega arith) tt in
      (
        t,
        inl (lt, d, shortest w t p, v),
        printf-d w (0 + length t) s (put_bytes t s) (put_decimal-positive w s lt e)
            ∙ counted t (0 + length t) s (omega arith),
      )
  | no ge ↦
      let m : negate w ≡ 2 ^ 32 - w = omega arith in
      let (t, e, v, d, p, l) = decimal_lem 19 (negate w) [] (omega arith) (omega arith) tt in
      (
        b'-' ∷ t,
        inr (omega arith, (t, refl, d, shortest (negate w) t p, v ∙ m)),
        printf-d w (0 + 1 + length t) s (put_bytes (b'-' ∷ t) s)
              (put_decimal-negative w s (omega arith) e)
            ∙ counted (b'-' ∷ t) (0 + 1 + length t) s (omega arith),
      )
]

-- `printf("%x", u)` prints hexadecimal digits with the value of u, gives back their number, and
-- restores the colour.
pub printf-hexadecimal :
    (w : ℕ) (s : Stdio)
    → w < 2 ^ 32
    → (t : List ℕ) × IsHex t
      × (hex_value 0 t ≡ w)
      × (printf (conversion b'x') (word w ∷ []) s ≡ printed t s)
printf-hexadecimal w s fits =
    let (t, e, v, d, l) = hexadecimal_lem 19 w [] (omega arith) tt in
    (
      t,
      d,
      v,
      printf-x w (0 + length t) s (put_bytes t s) (put_digits_lem 0 s e)
          ∙ counted t (0 + length t) s (omega arith),
    )
