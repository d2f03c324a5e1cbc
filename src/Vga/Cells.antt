-- ===== src/Vga/Cells.antt =====
-- What the loops of src/drivers/vga.c and of the scrolling in src/prog/terminal.c write into video
-- memory, cell by cell.
use dvivon_os.Base.{
  ◌-◌, arith, ltb, refl, zero, ◌&&◌, ◌*◌, ◌<◌, if◌then◌else◌, leb, ◌≤◌, Bool, suc, ◌+◌, ◌≡◌, ℕ,
}
use dvivon_os.Base.Buf.{update}
use dvivon_os.Vga.{
  entry, Vga, putchar_at, blank_cells, clear_cells, clear_rows, shift_cells, shift_rows,
}

-- Whether a cell is one of the n behind `lo`.
abbrev pub in_span : ℕ → ℕ → ℕ → Bool
in_span lo n i = leb lo i && ltb i (lo + n)

pub clear_cells_lem :
    (n x y e : ℕ) (b : ℕ → ℕ) (i : ℕ)
    → clear_cells n x y e b i ≡ (if in_span (y * 80 + x) n i then e else b i)
unfolding clear_cells
clear_cells_lem zero x y e b i = ground arith
clear_cells_lem (suc n) x y e b i =
    ground (arith, clear_cells_lem n (x + 1) y e (update b (y * 80 + x) e) i)

pub clear_rows_lem :
    (n y e : ℕ) (b : ℕ → ℕ) (i : ℕ)
    → clear_rows n y e b i ≡ (if in_span (y * 80) (n * 80) i then e else b i)
unfolding clear_rows
clear_rows_lem zero y e b i = ground arith
clear_rows_lem (suc n) y e b i =
    ground
      (arith, clear_rows_lem n (y + 1) e (clear_cells 80 0 y e b) i, clear_cells_lem 80 0 y e b i)

-- Row `y + 1` moves to row y.
pub shift_cells_lem :
    (n x y : ℕ) (b : ℕ → ℕ) (i : ℕ)
    → x + n ≤ 80
    → shift_cells n x (suc y) b i ≡ (if in_span (y * 80 + x) n i then b (i + 80) else b i)
unfolding shift_cells
shift_cells_lem zero x y b i h = ground arith
shift_cells_lem (suc n) x y b i h =
    let first = update b ((suc y - 1) * 80 + x) (b (suc y * 80 + x)) in
    ground (arith, shift_cells_lem n (x + 1) y first i (omega arith))

pub shift_rows_lem :
    (n y : ℕ) (b : ℕ → ℕ) (i : ℕ)
    → shift_rows n (suc y) b i ≡ (if in_span (y * 80) (n * 80) i then b (i + 80) else b i)
unfolding shift_rows
shift_rows_lem zero y b i = ground arith
shift_rows_lem (suc n) y b i =
    let b' = shift_cells 80 0 (suc y) b in
    ground (
      arith,
      shift_rows_lem n (suc y) b' i,
      shift_cells_lem 80 0 y b i (omega arith),
      shift_cells_lem 80 0 y b (i + 80) (omega arith),
    )

-- Only video memory changes where blanks are put, in a row on the screen.
pub blank_cells_lem :
    (n x y color : ℕ) (v : Vga) (i : ℕ)
    → x + n ≤ 80
    → y < 25
    → (blank_cells n x y color v).buffer i
      ≡ (if in_span (y * 80 + x) n i then entry b' ' color else v.buffer i)
unfolding blank_cells putchar_at
blank_cells_lem zero x y color v i h k = ground arith
blank_cells_lem (suc n) x y color v i h k =
    ground (arith, blank_cells_lem n (x + 1) y color (putchar_at b' ' color x y v) i)

pub blank_cells-row :
    (n x y color : ℕ) (v : Vga)
    → ((blank_cells n x y color v).row ≡ v.row)
      × ((blank_cells n x y color v).column ≡ v.column)
      × ((blank_cells n x y color v).color ≡ v.color)
      × ((blank_cells n x y color v).handler ≡ v.handler)
unfolding blank_cells putchar_at
blank_cells-row zero x y color v = (refl, refl, refl, refl)
blank_cells-row (suc n) x y color v =
    blank_cells-row n (x + 1) y color (putchar_at b' ' color x y v)
