-- ===== src/Vga/Cursor.antt =====
-- The cursor of src/drivers/vga.c stays on the screen, with either handler of a full screen.
use dvivon_os.Vga.Screen.{
  entry-lt, entry_color-lt, scroll-OnScreen, Behind, clear-OnScreen, Advanced, OnScreen,
}
use dvivon_os.Vga.{
  initialize, set_color, set_eof_handler, scrolls, black, clears, light_grey, EofHandler,
  entry_color, putchar_at, Vga, advance, move_cursor, putchar, run_handler, write_bytes,
  writestring,
}
use dvivon_os.Base.{
  ap, inr, ==_iff, ◌/◌, [], inl, ◌%◌, arith, refl, take, ◌+◌, ◌==◌, ◌^◌, ◌∙◌, ◌∷◌, Bool-cases, List,
  if◌then◌else◌, ◌*◌, ◌<◌, ◌≡◌, ℕ,
}
use dvivon_os.Str.{strlen}

-- The last two bytes for the data register are the position of the cursor.
pub record Synced (v : Vga) : Type 0 where
  pub low : ℕ
  pub high : ℕ
  pub before : List (ℕ × ℕ)
  pub sent : v.ports ≡ (0x3d5, low) ∷ (0x3d4, 15) ∷ (0x3d5, high) ∷ (0x3d4, 14) ∷ before
  pub position : high * 256 + low ≡ v.row * 80 + v.column

pub move_cursor-OnScreen : (v : Vga) → OnScreen v → OnScreen (move_cursor v.row v.column v)
unfolding move_cursor
move_cursor-OnScreen v h = record {
  row_lt = h.row_lt;
  column_lt = h.column_lt;
  color_lt = h.color_lt;
  cells = h.cells;
}

pub move_cursor-Synced : (v : Vga) → OnScreen v → Synced (move_cursor v.row v.column v)
unfolding move_cursor
move_cursor-Synced v h = record {
  low = (v.row * 80 + v.column) % 2 ^ 32 % 2 ^ 16 % 256;
  high = (v.row * 80 + v.column) % 2 ^ 32 % 2 ^ 16 / 256 % 256;
  before = v.ports;
  sent = refl;
  position = omega (arith, h.row_lt, h.column_lt);
}

move_cursor-buffer : (v : Vga) → (move_cursor v.row v.column v).buffer ≡ v.buffer
unfolding move_cursor
move_cursor-buffer v = refl

pub advance-Advanced :
    (c : ℕ) (v : Vga) → OnScreen v → Advanced (advance c v) × Behind v (advance c v)
unfolding advance putchar_at
advance-Advanced c v h = (
  record {
    row_le = ground (arith, h.row_lt, h.column_lt);
    column_lt = ground (arith, h.row_lt, h.column_lt);
    color_lt = ground (arith, h.color_lt);
    cells = λ i. ground (arith, h.cells i, entry-lt c v.color, entry-lt b' ' v.color);
  },
  λ i far. ground (arith, h.row_lt, h.column_lt),
)

run_handler-OnScreen :
    (e : EofHandler) (v : Vga)
    → v.row ≡ 25
    → Advanced v
    → OnScreen (run_handler e v) × Behind v (run_handler e v)
unfolding run_handler
run_handler-OnScreen clears v e h = clear-OnScreen v h
run_handler-OnScreen scrolls v e h = scroll-OnScreen v e h

-- What stands between the two halves of `vga_putchar`.
pub settled : Vga → Vga
settled w = if w.row == 25 then run_handler w.handler w else w

settled-OnScreen : (w : Vga) → Advanced w → OnScreen (settled w) × Behind w (settled w)
unfolding settled
settled-OnScreen w h = elim (Bool-cases (w.row == 25)) [
  | inl full ↦ rw full (run_handler-OnScreen w.handler w ((==_iff w.row 25).0 full) h)
  | inr fits ↦ rw fits (
    record {
      row_lt = ground (arith, h.row_le);
      column_lt = h.column_lt;
      color_lt = h.color_lt;
      cells = h.cells;
    },
    λ i far. refl,
  )
]

pub putchar-settled :
    (c : ℕ) (v : Vga)
    → putchar c v
      ≡ move_cursor
          (settled (advance c v)).row
          (settled (advance c v)).column
          (settled (advance c v))
unfolding putchar settled
putchar-settled c v = refl

-- After `vga_putchar` of any byte, every variable is in the range of its type and the cursor on the
-- screen, the hardware cursor is told its place, and nothing behind the screen is written.
pub putchar-OnScreen :
    (c : ℕ) (v : Vga)
    → OnScreen v
    → OnScreen (putchar c v) × Synced (putchar c v) × Behind v (putchar c v)
putchar-OnScreen c v h =
    let (adv, far) = advance-Advanced c v h in
    let (on, far') = settled-OnScreen (advance c v) adv in
    rw (putchar-settled c v) (
      move_cursor-OnScreen (settled (advance c v)) on,
      move_cursor-Synced (settled (advance c v)) on,
      λ i k. ap (λ b. b i) (move_cursor-buffer (settled (advance c v))) ∙ far' i k ∙ far i k,
    )

write_bytes-OnScreen :
    (s : List ℕ) (v : Vga) → OnScreen v → OnScreen (write_bytes s v) × Behind v (write_bytes s v)
unfolding write_bytes
write_bytes-OnScreen [] v h = (h, λ i k. refl)
write_bytes-OnScreen (c ∷ s) v h =
    let (on, _, far) = putchar-OnScreen c v h in
    let (on', far') = write_bytes-OnScreen s (putchar c v) on in (on', λ i k. far' i k ∙ far i k)

-- A whole string, whatever its bytes, keeps the variables in range and the cursor on the screen, and
-- writes nothing behind the screen.
pub writestring-OnScreen :
    (s : List ℕ) (v : Vga) → OnScreen v → OnScreen (writestring s v) × Behind v (writestring s v)
unfolding writestring
writestring-OnScreen s v = write_bytes-OnScreen (take (strlen s) s) v

pub set_color-OnScreen :
    (color : ℕ) (v : Vga) → color < 2 ^ 8 → OnScreen v → OnScreen (set_color color v)
unfolding set_color
set_color-OnScreen color v lt h = record {
  row_lt = h.row_lt;
  column_lt = h.column_lt;
  color_lt = lt;
  cells = h.cells;
}

-- `vga_initialize` puts any screen whose cells fit in order.
pub initialize-OnScreen : (v : Vga) → ((i : ℕ) → v.buffer i < 2 ^ 16) → OnScreen (initialize v)
unfolding initialize
initialize-OnScreen v fits =
    (clear-OnScreen
      (record v { row = 0; column = 0; color = entry_color light_grey black; handler = clears })
      (record {
        row_le = omega arith;
        column_lt = omega arith;
        color_lt = entry_color-lt 7 0;
        cells = fits;
      })).0

pub set_eof_handler-OnScreen :
    (e : EofHandler) (v : Vga) → OnScreen v → OnScreen (set_eof_handler e v)
unfolding set_eof_handler
set_eof_handler-OnScreen e v h = record {
  row_lt = h.row_lt;
  column_lt = h.column_lt;
  color_lt = h.color_lt;
  cells = h.cells;
}
