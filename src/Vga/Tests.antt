-- ===== src/Vga/Tests.antt =====
-- The screen at some inputs.
use dvivon_os.Vga.Screen.{Behind, OnScreen}
use dvivon_os.Vga.Text.{putchar-scrolls, writestring-Shows, Shows, place}
use dvivon_os.Vga.{entry, move_cursor, putchar_at, advance, scrolls, writestring, Vga, putchar}
use dvivon_os.Base.{◌+◌, ltb, refl, if◌then◌else◌, [], ℕ, arith, ◌∷◌, ◌≡◌}
use dvivon_os.Vga.Cursor.{writestring-OnScreen}

abbrev screen : Vga
screen = record { row = 24; column = 4; color = 7; handler = scrolls; buffer = λ i. i; ports = [] }

small_screen : Vga
small_screen = record screen { row = 3; buffer = λ i. 0x720 }

small_screen-OnScreen : OnScreen small_screen
unfolding small_screen
small_screen-OnScreen = record {
  row_lt = omega arith;
  column_lt = omega arith;
  color_lt = omega arith;
  cells = λ i. omega arith;
}

writestring-OnScreen_example :
    OnScreen (writestring (b'a' ∷ 10 ∷ 8 ∷ []) small_screen)
    × Behind small_screen (writestring (b'a' ∷ 10 ∷ 8 ∷ []) small_screen)
writestring-OnScreen_example =
    writestring-OnScreen (b'a' ∷ 10 ∷ 8 ∷ []) small_screen small_screen-OnScreen

writestring-Shows_example :
    Shows (b'o' ∷ b'k' ∷ []) small_screen (writestring (b'o' ∷ b'k' ∷ []) small_screen)
unfolding small_screen
writestring-Shows_example =
    writestring-Shows (b'o' ∷ b'k' ∷ []) small_screen (omega arith) small_screen-OnScreen
      (omega arith)

putchar-scrolls_example :
    (place (putchar 10 screen) ≡ 1920)
    × ((i : ℕ)
        → (putchar 10 screen).buffer i
          ≡ (if ltb i 1920 then i + 80 else if ltb i 2000 then entry b' ' 7 else i))
putchar-scrolls_example = putchar-scrolls screen refl refl

-- A letter in the last column goes on in the next row.
wraps :
    ◌≡◌ {A = ℕ × ℕ}
      (
        (putchar b'a' (record screen { row = 3; column = 79 })).row,
        (putchar b'a' (record screen { row = 3; column = 79 })).column,
      )
      (4, 0)
unfolding putchar advance putchar_at move_cursor
wraps = refl

-- A backspace in the first column does nothing.
stays : (putchar 8 (record screen { row = 3; column = 0 })).column ≡ 0
unfolding putchar advance putchar_at move_cursor
stays = refl
