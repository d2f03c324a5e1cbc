-- ===== src/Stdio/Tests.antt =====
-- Printing at some inputs.
use dvivon_os.Stdio.Ends.{printf-Ends, serves}
use dvivon_os.Base.{arith, refl, ◌-◌, some, ◌+◌, ◌^◌, ◌∷◌, ◌≡◌, [], false, none, List, ℕ}
use dvivon_os.Str.{strlen}
use dvivon_os.Stdio.Numbers.{printf-decimal, printed, conversion, SpellsInt}
use dvivon_os.Base.Buf.{update}
use dvivon_os.Vga.{clears, Vga}
use dvivon_os.Stdio.{word, negate, printf, Stdio, decimal, format_from, hexadecimal}

-- A console whose `putc` appends to the memory of the screen, at the place that `row` counts.
log_byte : ℕ → Vga → Vga
log_byte c v = record v { row = v.row + 1; buffer = update v.buffer v.row c }

console : Stdio
console = record {
  active = record { on_init = none; on_clear = none; on_putc = some log_byte; on_puts = none };
  vga = record { row = 0; column = 0; color = 7; handler = clears; buffer = λ i. 0; ports = [] };
}

printf-decimal_example :
    (t : List ℕ) × SpellsInt 1234 t
    × (printf (conversion b'd') (word 1234 ∷ []) console ≡ printed t console)
printf-decimal_example = printf-decimal 1234 console (omega arith) (omega arith)

printf-Ends_example :
    (r : ℕ × Stdio) × (printf (b'n' ∷ b'%' ∷ b'd' ∷ []) (word 7 ∷ []) console ≡ some r)
unfolding serves strlen
printf-Ends_example = printf-Ends (b'n' ∷ b'%' ∷ b'd' ∷ []) (word 7 ∷ []) console (omega arith) refl

minus_twelve : decimal 20 (negate (2 ^ 32 - 12)) [] ≡ some (b'1' ∷ b'2' ∷ [])
unfolding decimal
minus_twelve = refl

-- The least int prints as `-(`: its negation is itself, and its remainder by 10 is -8.
least_int : decimal 20 (negate (2 ^ 31)) [] ≡ some (b'(' ∷ [])
unfolding decimal
least_int = refl

hex_beef : hexadecimal 20 48879 [] ≡ some (b'b' ∷ b'e' ∷ b'e' ∷ b'f' ∷ [])
unfolding hexadecimal
hex_beef = refl

-- A format that ends in a `%` is read past its end.
runs_past : (s : Stdio) → format_from false (b'%' ∷ []) [] 0 s ≡ none
unfolding format_from
runs_past s = refl
