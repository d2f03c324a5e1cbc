-- ===== src/Stdio/Digits.antt =====
-- The digits that the loops of printf of src/lib/stdio.c make read back as the number.
use dvivon_os.Base.{
  sym, ◌∙◌, ap, length, ◌-◌, arith, leb, some, ◌+◌, ◌^◌, ◌⊎◌, if◌then◌else◌, ◌%◌, ◌*◌, ◌/◌, ◌<◌,
  ◌≡◌, ◌≤◌, List, ℕ, [], ◌∷◌, suc, zero, inl, inr,
}
use native.Mathlib.Decide.{dec_lt}
use dvivon_os.Stdio.{hex_digit, decimal, hexadecimal}

abbrev pub IsDecimal : List ℕ → Type 0
IsDecimal [] = Unit {0}
IsDecimal (c ∷ s) = (b'0' ≤ c) × (c ≤ b'9') × IsDecimal s

-- Digits with no zero in front: the zero alone, or a first digit that is not zero.
abbrev pub StartsPositive : List ℕ → Type 0
StartsPositive [] = ⊥
StartsPositive (c ∷ s) = b'0' < c

abbrev pub IsShortest : List ℕ → Type 0
IsShortest s = (s ≡ b'0' ∷ []) ⊎ StartsPositive s

-- The number that decimal digits spell behind n.
abbrev pub decimal_value : ℕ → List ℕ → ℕ
decimal_value n [] = n
decimal_value n (c ∷ s) = decimal_value (n * 10 + (c - b'0')) s

-- The value of a hexadecimal digit with lower-case letters.
abbrev pub hex_digit_value : ℕ → ℕ
hex_digit_value c = if leb b'a' c then c - b'a' + 10 else c - b'0'

abbrev pub hex_value : ℕ → List ℕ → ℕ
hex_value n [] = n
hex_value n (c ∷ s) = hex_value (n * 16 + hex_digit_value c) s

-- Lower-case hexadecimal digits.
abbrev pub IsHex : List ℕ → Type 0
IsHex [] = Unit {0}
IsHex (c ∷ s) = (((b'0' ≤ c) × (c ≤ b'9')) ⊎ ((b'a' ≤ c) × (c ≤ b'f'))) × IsHex s

-- The buffer after one more digit.
abbrev next_decimal : ℕ → List ℕ → List ℕ
next_decimal val out = (val % 10 + b'0') % 2 ^ 8 ∷ out

abbrev next_hex : ℕ → List ℕ → List ℕ
next_hex val out = hex_digit (val % 16) ∷ out

next_decimal-value :
    (val : ℕ) (out : List ℕ)
    → decimal_value (val / 10) (next_decimal val out) ≡ decimal_value val out
next_decimal-value val out =
    let e : val / 10 * 10 + ((val % 10 + b'0') % 2 ^ 8 - b'0') ≡ val = omega arith in
    ap (λ n. decimal_value n out) e

next_hex-value :
    (val : ℕ) (out : List ℕ) → hex_value (val / 16) (next_hex val out) ≡ hex_value val out
next_hex-value val out =
    let e : val / 16 * 16 + hex_digit_value (hex_digit (val % 16)) ≡ val = ground arith in
    ap (λ n. hex_value n out) e

next_hex-digit :
    (d : ℕ)
    → d < 16
    → ((b'0' ≤ hex_digit d) × (hex_digit d ≤ b'9')) ⊎ ((b'a' ≤ hex_digit d) × (hex_digit d ≤ b'f'))
next_hex-digit d h = elim (dec_lt d 10) [
  | yes lt ↦ inl (ground arith, ground arith)
  | no ge ↦ inr (ground arith, ground arith)
]

-- The loop's result for the digits of val behind `out`, within the room.
abbrev pub SpellsDecimal : (room val : ℕ) → List ℕ → Type 0
SpellsDecimal room val out =
    (s : List ℕ) × (decimal (suc room) val out ≡ some s)
    × (decimal_value 0 s ≡ decimal_value val out)
    × IsDecimal s
    × (((val ≡ 0) × (s ≡ b'0' ∷ out)) ⊎ StartsPositive s)
    × (length s ≤ suc room + length out)

abbrev pub SpellsHex : (room val : ℕ) → List ℕ → Type 0
SpellsHex room val out =
    (s : List ℕ) × (hexadecimal (suc room) val out ≡ some s)
    × (hex_value 0 s ≡ hex_value val out)
    × IsHex s
    × (length s ≤ suc room + length out)

-- The digit that the last round puts in front.
decimal-first :
    (val : ℕ) (out : List ℕ)
    → val < 10
    → ((val ≡ 0) × (next_decimal val out ≡ b'0' ∷ out)) ⊎ StartsPositive (next_decimal val out)
decimal-first val out lt = elim (dec_lt 0 val) [
  | yes pos ↦ inr (omega arith)
  | no z ↦
      let c : (val % 10 + b'0') % 2 ^ 8 ≡ b'0' = omega arith in
      inl (omega arith, ap (λ d. d ∷ out) c)
]

first_of_positive :
    (val : ℕ) (s t : List ℕ) → 0 < val → ((val ≡ 0) × (s ≡ t)) ⊎ StartsPositive s → StartsPositive s
first_of_positive val s t pos (inl (z, e)) = absurd (omega arith)
first_of_positive val s t pos (inr h) = h

-- The last round.
decimal-last : (room val : ℕ) (out : List ℕ) → val < 10 → IsDecimal out → SpellsDecimal room val out
unfolding decimal
decimal-last room val out lt h = (
  next_decimal val out,
  ground arith,
  (let e : val / 10 ≡ 0 = omega arith in
      ap (λ n. decimal_value n (next_decimal val out)) (sym e) ∙ next_decimal-value val out),
  (omega arith, omega arith, h),
  decimal-first val out lt,
  omega arith,
)

hexadecimal-last : (room val : ℕ) (out : List ℕ) → val < 16 → IsHex out → SpellsHex room val out
unfolding hexadecimal
hexadecimal-last room val out lt h = (
  next_hex val out,
  ground arith,
  (let e : val / 16 ≡ 0 = omega arith in
      ap (λ n. hex_value n (next_hex val out)) (sym e) ∙ next_hex-value val out),
  (next_hex-digit (val % 16) (omega arith), h),
  omega arith,
)

-- The loop for `%d` on a number that is not negative, and the loop for `%x`.
pub decimal_lem :
    (room val : ℕ) (out : List ℕ)
    → val < 2 ^ 31
    → val < 10 ^ suc room
    → IsDecimal out
    → SpellsDecimal room val out
unfolding decimal
decimal_lem zero val out small fits h = decimal-last zero val out fits h
decimal_lem (suc room) val out small fits h = elim (dec_lt val 10) [
  | yes lt ↦ decimal-last (suc room) val out lt h
  | no ge ↦
      let (s, e, v, d, p, l) =
        decimal_lem room (val / 10) (next_decimal val out) (omega arith) (omega arith)
          (omega arith, omega arith, h) in
      let positive = first_of_positive (val / 10) s _ (omega arith) p in
      (s, ground (arith, e), v ∙ next_decimal-value val out, d, inr positive, omega (arith, l))
]

pub hexadecimal_lem :
    (room val : ℕ) (out : List ℕ) → val < 16 ^ suc room → IsHex out → SpellsHex room val out
unfolding hexadecimal
hexadecimal_lem zero val out fits h = hexadecimal-last zero val out fits h
hexadecimal_lem (suc room) val out fits h = elim (dec_lt val 16) [
  | yes lt ↦ hexadecimal-last (suc room) val out lt h
  | no ge ↦
      let (s, e, v, d, l) =
        hexadecimal_lem room (val / 16) (next_hex val out) (omega arith)
          (next_hex-digit (val % 16) (omega arith), h) in
      (s, ground (arith, e), v ∙ next_hex-value val out, d, omega (arith, l))
]
