-- ===== src/Pmm/Bitmap.antt =====
-- The bits of the page bitmap of pmm.c under its updates.
use dvivon_os.Base.{ℕ, ◌+◌, ◌-◌, ◌*◌, ◌/◌, ◌%◌, ◌^◌, ◌<◌, ◌≡◌, ◌&&◌, ◌||◌, not, bit_or, arith, ◌==◌}
use dvivon_os.Base.Bits.{bit-set, bit-clear, bit_or-lt, bit_and-lt, pow_lt}
use dvivon_os.Base.Buf.{update}
use dvivon_os.Pmm.{Bitmap, test_bit, clear_bit, set_bit}

-- Bit `k` of word `w` set by `|=`, read at page `p`.
pub test_bit-or :
    (m : Bitmap) (w k p : ℕ)
    → k < 32
    → test_bit p (update m w (bit_or (m w) (2 ^ k))) ≡ (test_bit p m || (w * 32 + k == p))
test_bit-or m w k p h = ground (arith, bit-set (m w) k (p % 32))

pub test_bit-set_bit :
    (n p : ℕ) (m : Bitmap) → test_bit p (set_bit n m) ≡ (test_bit p m || (n == p))
unfolding set_bit
test_bit-set_bit n p m = ground (arith, test_bit-or m (n / 32) (n % 32) p)

pub test_bit-clear_bit :
    (n p : ℕ) (m : Bitmap) → test_bit p (clear_bit n m) ≡ (test_bit p m && not (n == p))
unfolding clear_bit
test_bit-clear_bit n p m = ground (arith, bit-clear 32 (m (n / 32)) (n % 32) (p % 32))

-- Every word fits 32 bits.
abbrev pub Fits : Bitmap → Type 0
Fits m = (w : ℕ) → m w < 2 ^ 32

pub set_bit-Fits : (n : ℕ) (m : Bitmap) → Fits m → Fits (set_bit n m)
unfolding set_bit
set_bit-Fits n m h w =
    ground (arith, h w, h (n / 32), bit_or-lt 32 (m (n / 32)) (2 ^ (n % 32)), pow_lt (n % 32) 32)

pub clear_bit-Fits : (n : ℕ) (m : Bitmap) → Fits m → Fits (clear_bit n m)
unfolding clear_bit
clear_bit-Fits n m h w =
    ground (arith, h w, h (n / 32), bit_and-lt 32 (m (n / 32)) (2 ^ 32 - 1 - 2 ^ (n % 32)))
