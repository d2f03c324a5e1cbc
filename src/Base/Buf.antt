-- ===== src/Base/Buf.antt =====
-- Memory read and written by bytes, and by little-endian words. A `Buf` is what stands from a
-- pointer on: the byte at each offset.
use Prim.Native.Nat.{ℕ, ◌+◌, ◌*◌, ◌/◌, ◌%◌, ◌^◌, ◌≤◌, ◌<◌}
use mathlib.Core.Path.{◌≡◌}
use mathlib.Core.Logic.{◌⊎◌}
use native.Mathlib.Omega.{arith}
use dvivon_os.Base.Tests.{◌==◌, if◌then◌else◌}

abbrev pub Buf : Type 0
Buf = ℕ → ℕ

-- All bytes zero, as after `memset(p, 0, n)`.
abbrev pub zeros : Buf
zeros i = 0

-- A write of one element of an array.
module _ {ℓ} {A : Type ℓ} where
  abbrev pub update : (ℕ → A) → ℕ → A → ℕ → A
  update f i v j = if j == i then v else f j

unfoldable pub get16 : Buf → ℕ → ℕ
get16 b i = b i + 256 * b (i + 1)

unfoldable pub put16 : Buf → ℕ → ℕ → Buf
put16 b i v = update (update b i (v % 256)) (i + 1) (v / 256 % 256)

unfoldable pub get32 : Buf → ℕ → ℕ
get32 b i = b i + 256 * b (i + 1) + 65536 * b (i + 2) + 16777216 * b (i + 3)

unfoldable pub put32 : Buf → ℕ → ℕ → Buf
put32 b i v =
    update
      (update (update (update b i (v % 256)) (i + 1) (v / 256 % 256)) (i + 2) (v / 65536 % 256))
      (i + 3) (v / 16777216 % 256)

pub get16-put16_self : (b : Buf) (i v : ℕ) → get16 (put16 b i v) i ≡ v % 2 ^ 16
unfolding get16 put16
get16-put16_self b i v = ground arith

pub get32-put32_self : (b : Buf) (i v : ℕ) → get32 (put32 b i v) i ≡ v % 2 ^ 32
unfolding get32 put32
get32-put32_self b i v = ground arith

-- What a write leaves alone.
abbrev pub Outside : ℕ → ℕ → ℕ → Type 0
Outside j i n = (j < i) ⊎ (i + n ≤ j)

pub put16_frame : (b : Buf) (i v j : ℕ) → Outside j i 2 → put16 b i v j ≡ b j
unfolding put16
put16_frame b i v j h = ground arith

pub put32_frame : (b : Buf) (i v j : ℕ) → Outside j i 4 → put32 b i v j ≡ b j
unfolding put32
put32_frame b i v j h = ground arith

pub get32-put32_ne :
    (b : Buf) (i v j : ℕ) → (j + 4 ≤ i) ⊎ (i + 4 ≤ j) → get32 (put32 b i v) j ≡ get32 b j
unfolding get32 put32
get32-put32_ne b i v j h = ground arith

pub get16-put32_ne :
    (b : Buf) (i v j : ℕ) → (j + 2 ≤ i) ⊎ (i + 4 ≤ j) → get16 (put32 b i v) j ≡ get16 b j
unfolding get16 put32
get16-put32_ne b i v j h = ground arith

pub get32-put16_ne :
    (b : Buf) (i v j : ℕ) → (j + 4 ≤ i) ⊎ (i + 2 ≤ j) → get32 (put16 b i v) j ≡ get32 b j
unfolding get32 put16
get32-put16_ne b i v j h = ground arith

pub get16-put16_ne :
    (b : Buf) (i v j : ℕ) → (j + 2 ≤ i) ⊎ (i + 2 ≤ j) → get16 (put16 b i v) j ≡ get16 b j
unfolding get16 put16
get16-put16_ne b i v j h = ground arith

-- Two memories that agree on four bytes hold the same word there.
pub get32-congr :
    (b c : Buf) (i : ℕ) → ((j : ℕ) → i ≤ j → j < i + 4 → b j ≡ c j) → get32 b i ≡ get32 c i
unfolding get32
get32-congr b c i same = ground (
  arith,
  same i (omega arith) (omega arith),
  same (i + 1) (omega arith) (omega arith),
  same (i + 2) (omega arith) (omega arith),
  same (i + 3) (omega arith) (omega arith),
)
