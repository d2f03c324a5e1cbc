-- ===== src/Vga/Text.antt =====
-- What a text leaves on the screen of src/drivers/vga.c.
use dvivon_os.Vga.Screen.{scroll_buffer, OnScreen, scroll_place}
use dvivon_os.Vga.Cursor.{putchar-OnScreen}
use dvivon_os.Base.{
  true, ◌^◌, ◌%◌, ltb, ◌∙◌, arith, refl, suc, ap, length, ◌-◌, ◌==◌, ==_of_ne, [], get_or,
  if◌then◌else◌, ◌+◌, take, ◌*◌, ◌<◌, ◌∷◌, ◌≡◌, ◌≢◌, List, ℕ,
}
use dvivon_os.Vga.{
  entry, scrolls, run_handler, move_cursor, putchar_at, advance, Vga, putchar, write_bytes,
  writestring,
}
use dvivon_os.Vga.Cells.{in_span}
use dvivon_os.Str.{strlen}

-- A byte that is neither a line feed nor a backspace, and a text of such bytes with no NUL.
abbrev pub IsGlyph : ℕ → Type 0
IsGlyph c = (c ≢ 0) × (c ≢ 8) × (c ≢ 10)

abbrev pub AllGlyphs : List ℕ → Type 0
AllGlyphs [] = Unit {0}
AllGlyphs (c ∷ s) = IsGlyph c × AllGlyphs s

-- The cell at which the cursor stands.
abbrev pub place : Vga → ℕ
place v = v.row * 80 + v.column

-- What a state `w` is to `v` when the text s was put at the cursor of v.
pub record Shows (s : List ℕ) (v w : Vga) : Type 0 where
  pub moved : place w ≡ place v + length s
  pub color_same : w.color ≡ v.color
  pub shown :
      (i : ℕ)
      → w.buffer i ≡ (
          if in_span (place v) (length s) i
          then entry (get_or s (i - place v) 0) v.color
          else v.buffer i)

-- One glyph, with room behind it.
pub putchar-glyph :
    (c : ℕ) (v : Vga)
    → IsGlyph c
    → OnScreen v
    → place v + 1 < 2000
    → (place (putchar c v) ≡ place v + 1)
      × ((putchar c v).color ≡ v.color)
      × ((i : ℕ) → (putchar c v).buffer i ≡ (if i == place v then entry c v.color else v.buffer i))
unfolding putchar advance putchar_at move_cursor
putchar-glyph c v g h room = (
  ground (arith, g.1, g.2, h.row_lt, h.column_lt, room),
  ground (arith, g.1, g.2, h.row_lt, h.column_lt, room),
  λ i. ground (arith, g.1, g.2, h.row_lt, h.column_lt, room),
)

-- The cell that a text behind one glyph puts at i, counted from before the glyph.
get_or-suc :
    (c : ℕ) (s : List ℕ) (i p : ℕ) → p < i → get_or (c ∷ s) (i - p) 0 ≡ get_or s (i - (p + 1)) 0
get_or-suc c s i p h =
    let e : i - p ≡ suc (i - (p + 1)) = omega arith in ap (λ k. get_or (c ∷ s) k 0) e

get_or-here : (c : ℕ) (s : List ℕ) (i p : ℕ) → i ≡ p → get_or (c ∷ s) (i - p) 0 ≡ c
get_or-here c s i p h = let e : i - p ≡ 0 = omega arith in ap (λ k. get_or (c ∷ s) k 0) e

cons-shown :
    (c : ℕ) (s : List ℕ) (p color b b' b'' i : ℕ)
    → b' ≡ (if i == p then entry c color else b)
    → b'' ≡ (if in_span (p + 1) (length s) i then entry (get_or s (i - (p + 1)) 0) color else b')
    → b'' ≡ (if in_span p (length (c ∷ s)) i then entry (get_or (c ∷ s) (i - p) 0) color else b)
cons-shown c s p color b b' b'' i h k = ground (arith, get_or-suc c s i p, get_or-here c s i p)

-- What a call behind one glyph shows, read from before the glyph.
behind :
    (c : ℕ) (s : List ℕ) (v : Vga) (i : ℕ) {b : ℕ}
    → place (putchar c v) ≡ place v + 1
    → (putchar c v).color ≡ v.color
    → b ≡ (
        if in_span (place (putchar c v)) (length s) i
        then entry (get_or s (i - place (putchar c v)) 0) (putchar c v).color
        else (putchar c v).buffer i)
    → b ≡ (
        if in_span (place v + 1) (length s) i
        then entry (get_or s (i - (place v + 1)) 0) v.color
        else (putchar c v).buffer i)
behind c s v i at same h = h ∙ λ j.
    if in_span (at j) (length s) i
    then entry (get_or s (i - at j) 0) (same j)
    else (putchar c v).buffer i

write_bytes-Shows :
    (s : List ℕ) (v : Vga)
    → AllGlyphs s
    → OnScreen v
    → place v + length s < 2000
    → Shows s v (write_bytes s v)
unfolding write_bytes
write_bytes-Shows [] v g h room = record {
  moved = omega arith;
  color_same = refl;
  shown = λ i. ground arith;
}
write_bytes-Shows (c ∷ s) v (g, gs) h room =
    let (at, same, put) = putchar-glyph c v g h (omega arith) in
    let ih = write_bytes-Shows s (putchar c v) gs (putchar-OnScreen c v h).0 (omega (arith, at)) in
    record {
      moved = omega (arith, at, ih.moved);
      color_same = ih.color_same ∙ same;
      shown = λ i.
          cons-shown c s (place v) v.color (v.buffer i) ((putchar c v).buffer i)
            ((write_bytes s (putchar c v)).buffer i) i (put i)
            (behind c s v i at same (ih.shown i));
    }

AllGlyphs-strlen : (s : List ℕ) → AllGlyphs s → take (strlen s) s ≡ s
unfolding strlen
AllGlyphs-strlen [] g = refl
AllGlyphs-strlen (c ∷ s) g = rw (==_of_ne c 0 g.0.0) (ap (◌∷◌ c) (AllGlyphs-strlen s g.1))

-- A text with no NUL, backspace or line feed, with room for it on the screen and one cell more: its
-- bytes stand in the cells from the cursor on, in the current colour, no other cell changes, and the
-- cursor stands behind them.
pub writestring-Shows :
    (s : List ℕ) (v : Vga)
    → AllGlyphs s
    → OnScreen v
    → place v + length s < 2000
    → Shows s v (writestring s v)
unfolding writestring
writestring-Shows s v g h room = rw (AllGlyphs-strlen s g) (write_bytes-Shows s v g h room)

-- A line feed in the last row, with the handler that scrolls: each row shows what the one below it
-- showed, the last row is blank, nothing behind the screen changes, and the cursor stands at the
-- start of the last row.
pub putchar-scrolls :
    (v : Vga)
    → v.row ≡ 24
    → v.handler ≡ scrolls
    → (place (putchar 10 v) ≡ 1920)
      × ((i : ℕ)
          → (putchar 10 v).buffer i ≡ (
              if ltb i 1920
              then v.buffer (i + 80)
              else if ltb i 2000
              then entry b' ' v.color
              else v.buffer i))
unfolding putchar advance move_cursor run_handler
putchar-scrolls v e h =
    let w = record v { row = (v.row + 1) % 2 ^ 32; column = 0 } in
    let full : (w.row == 25) ≡ true = ground arith in
    rw full
      (rw h (ground (arith, scroll_place w (ground arith)), λ i. ground (arith, scroll_buffer w i)))
