-- ===== src/Base/Bits.antt =====
-- The bits of a word: the native bit operations, read bit by bit. `bit w k` is the C expression
-- `(w >> k) & 1`.
use Prim.Native.Nat.{
  ℕ, zero, suc, ◌+◌, ◌-◌, ◌*◌, ◌/◌, ◌%◌, ◌^◌, ◌≤◌, ◌<◌, min, max, bit_and, bit_or, digits,
  bit_and-bitwise, bit_or-bitwise,
}
use mathlib.Core.Path.{◌≡◌, refl, ap, ◌∙◌}
use mathlib.Core.Bool.{Bool, true, false, ◌&&◌, ◌||◌, not}
use native.Mathlib.Omega.{arith}
use native.Mathlib.Decide.{dec_le}
use dvivon_os.Base.Tests.{◌==◌, if◌then◌else◌}

abbrev pub bit : ℕ → ℕ → Bool
bit w zero = (w % 2) == 1
bit w (suc k) = bit (w / 2) k

-- The native operations run over the digits of the first argument with that argument as fuel. Fuel
-- beyond it adds nothing.
module _ (low : ℕ → ℕ) (join : ℕ → ℕ → ℕ) where
  one_more : (n a b : ℕ) → a ≤ n → digits low join (suc n) a b ≡ digits low join n a b
  one_more zero zero b le = refl
  one_more (suc n) zero b le = refl
  one_more zero (suc a) b le = absurd (omega arith)
  one_more (suc n) (suc a) b le =
      ap (λ d. d * 2 + join (suc a % 2) (b % 2)) (one_more n (suc a / 2) (b / 2) (omega arith))

  least_fuel : (n a b : ℕ) → a ≤ n → digits low join n a b ≡ digits low join a a b
  least_fuel zero zero b le = refl
  least_fuel zero (suc a) b le = absurd (omega arith)
  least_fuel (suc n) a b le = elim (dec_le a n) [
    | yes more ↦ one_more n a b more ∙ least_fuel n a b more
    | no exact ↦ let e : suc n ≡ a = omega arith in ap (λ m. digits low join m a b) e
  ]

-- One binary digit at a time.
pub bit_and_step : (a b : ℕ) → bit_and a b ≡ bit_and (a / 2) (b / 2) * 2 + min (a % 2) (b % 2)
bit_and_step zero b = omega (arith, bit_and-bitwise 0 (b / 2), bit_and-bitwise 0 b)
bit_and_step (suc a) b =
    let half = least_fuel (λ d. 0) min a (suc a / 2) (b / 2) (omega arith) in
    omega (arith, half, bit_and-bitwise (suc a / 2) (b / 2), bit_and-bitwise (suc a) b)

pub bit_or_step : (a b : ℕ) → bit_or a b ≡ bit_or (a / 2) (b / 2) * 2 + max (a % 2) (b % 2)
bit_or_step zero b = omega (arith, bit_or-bitwise 0 (b / 2), bit_or-bitwise 0 b)
bit_or_step (suc a) b =
    let half = least_fuel (λ d. d) max a (suc a / 2) (b / 2) (omega arith) in
    omega (arith, half, bit_or-bitwise (suc a / 2) (b / 2), bit_or-bitwise (suc a) b)

pub half-bit_and : (a b : ℕ) → bit_and a b / 2 ≡ bit_and (a / 2) (b / 2)
half-bit_and a b = omega (arith, bit_and_step a b)

pub half-bit_or : (a b : ℕ) → bit_or a b / 2 ≡ bit_or (a / 2) (b / 2)
half-bit_or a b = omega (arith, bit_or_step a b)

pub bit-bit_and : (a b k : ℕ) → bit (bit_and a b) k ≡ (bit a k && bit b k)
bit-bit_and a b zero = ground (arith, bit_and_step a b)
bit-bit_and a b (suc k) = rw (half-bit_and a b) (bit-bit_and (a / 2) (b / 2) k)

pub bit-bit_or : (a b k : ℕ) → bit (bit_or a b) k ≡ (bit a k || bit b k)
bit-bit_or a b zero = ground (arith, bit_or_step a b)
bit-bit_or a b (suc k) = rw (half-bit_or a b) (bit-bit_or (a / 2) (b / 2) k)

pub bit_zero : (k : ℕ) → bit 0 k ≡ false
bit_zero zero = refl
bit_zero (suc k) = bit_zero k

pow-suc_half : (j : ℕ) → 2 ^ suc j / 2 ≡ 2 ^ j
pow-suc_half j = omega arith

pub bit-pow : (j k : ℕ) → bit (2 ^ j) k ≡ (j == k)
bit-pow zero zero = refl
bit-pow zero (suc k) = bit_zero k ∙ ground arith
bit-pow (suc j) zero = ground arith
bit-pow (suc j) (suc k) = rw (pow-suc_half j) (bit-pow j k ∙ ground arith)

-- The bits of a complement: `~m` in an n-bit word.
pub bit-complement : (n m k : ℕ) → m < 2 ^ n → k < n → bit (2 ^ n - 1 - m) k ≡ not (bit m k)
bit-complement zero m k h lt = absurd (omega arith)
bit-complement (suc n) m zero h lt = ground arith
bit-complement (suc n) m (suc k) h lt =
    let e : (2 ^ suc n - 1 - m) / 2 ≡ 2 ^ n - 1 - m / 2 = omega arith in
    rw e (bit-complement n (m / 2) k (omega arith) (omega arith))

pub bit_and-zero : (n a : ℕ) → a ≤ n → bit_and a 0 ≡ 0
bit_and-zero n zero h = refl
bit_and-zero zero (suc a) h = absurd (omega arith)
bit_and-zero (suc n) (suc a) h =
    omega (arith, bit_and_step (suc a) 0, bit_and-zero n (suc a / 2) (omega arith))

-- `w & (1 << k)` is not zero exactly when bit k is set.
pub bit_and-pow : (w k : ℕ) → bit_and w (2 ^ k) ≡ (if bit w k then 2 ^ k else 0)
bit_and-pow w zero = ground (arith, bit_and_step w 1, bit_and-zero (w / 2) (w / 2))
bit_and-pow w (suc k) =
    ground (arith, bit_and_step w (2 ^ suc k), pow-suc_half k, bit_and-pow (w / 2) k)

pub pow_pos : (k : ℕ) → 0 < 2 ^ k
pow_pos zero = omega arith
pow_pos (suc k) = omega (arith, pow_pos k)

pub pow_lt : (k n : ℕ) → k < n → 2 ^ k < 2 ^ n
pow_lt k zero h = absurd (omega arith)
pow_lt zero (suc n) h = omega (arith, pow_pos n)
pow_lt (suc k) (suc n) h = omega (arith, pow_lt k n (omega arith))

pub mask_test : (w k : ℕ) → (bit_and w (2 ^ k) == 0) ≡ not (bit w k)
mask_test w k = ground (arith, bit_and-pow w k, pow_pos k)

pub bit_or-lt : (n a b : ℕ) → a < 2 ^ n → b < 2 ^ n → bit_or a b < 2 ^ n
bit_or-lt zero zero zero p q = omega arith
bit_or-lt zero zero (suc b) p q = absurd (omega arith)
bit_or-lt zero (suc a) b p q = absurd (omega arith)
bit_or-lt (suc n) a b p q =
    omega (arith, bit_or_step a b, bit_or-lt n (a / 2) (b / 2) (omega arith) (omega arith))

pub bit_and-lt : (n a b : ℕ) → a < 2 ^ n → bit_and a b < 2 ^ n
bit_and-lt zero zero b p = omega (arith, bit_and-bitwise 0 b)
bit_and-lt zero (suc a) b p = absurd (omega arith)
bit_and-lt (suc n) a b p =
    omega (arith, bit_and_step a b, bit_and-lt n (a / 2) (b / 2) (omega arith))

-- Setting and clearing one bit, `w |= 1 << k` and `w &= ~(1 << k)` on an n-bit `~`.
pub bit-set : (w k j : ℕ) → bit (bit_or w (2 ^ k)) j ≡ (bit w j || (k == j))
bit-set w k j = rw (bit-bit_or w (2 ^ k) j, bit-pow k j)

pub bit-clear :
    (n w k j : ℕ)
    → k < n
    → j < n
    → bit (bit_and w (2 ^ n - 1 - 2 ^ k)) j ≡ (bit w j && not (k == j))
bit-clear n w k j hk hj = rw (
  bit-bit_and w (2 ^ n - 1 - 2 ^ k) j,
  bit-complement n (2 ^ k) j (pow_lt k n hk) hj,
  bit-pow k j,
)

-- A word whose n bits are all set is `2 ^ n - 1`.
pub all_set : (n w : ℕ) → w < 2 ^ n → ((k : ℕ) → k < n → bit w k ≡ true) → w ≡ 2 ^ n - 1
all_set zero w h all = omega arith
all_set (suc n) w h all =
    let half = all_set n (w / 2) (omega arith) (λ k lt. all (suc k) (omega arith)) in
    ground (arith, all 0 (omega arith), half)

pub bit-ones : (n k : ℕ) → k < n → bit (2 ^ n - 1) k ≡ true
bit-ones n k h =
    let same : 2 ^ n - 1 ≡ 2 ^ n - 1 - 0 = omega arith in
    ap (λ w. bit w k) same ∙ bit-complement n 0 k (pow_pos n) h ∙ ap not (bit_zero k)

half_ones : (n : ℕ) → (2 ^ suc n - 1) / 2 ≡ 2 ^ n - 1
half_ones n = omega (arith, pow_pos n)

-- A mask of n ones keeps a number of n bits.
pub bit_and-ones : (n a : ℕ) → a < 2 ^ n → bit_and a (2 ^ n - 1) ≡ a
bit_and-ones zero zero h = refl
bit_and-ones zero (suc a) h = absurd (omega arith)
bit_and-ones (suc n) a h = omega (
  arith,
  pow_pos n,
  bit_and_step a (2 ^ suc n - 1),
  ap (bit_and (a / 2)) (half_ones n) ∙ bit_and-ones n (a / 2) (omega arith),
)
