-- ===== src/Ext2/Bitmap/Bits.antt =====
-- The bits of a bitmap block under the updates of the allocators.
use dvivon_os.Base.Bits.{bit-clear, bit-set, mask_test, bit}
use dvivon_os.Base.{
  ◌-◌, zero, ◌^◌, bit_and, bit_or, suc, arith, ◌%◌, ◌/◌, ◌==◌, not, ◌&&◌, ◌||◌, Bool, ◌<◌, ◌≡◌, ℕ,
}
use dvivon_os.Ext2.Bitmap.{is_free, mark_free, mark_used}
use dvivon_os.Base.Buf.{Buf}

-- Bit i of the bitmap: whether block or inode i of the group is in use.
abbrev pub used : Buf → ℕ → Bool
used m i = bit (m (i / 8)) (i % 8)

bit-low_byte : (x k : ℕ) → k < 8 → bit (x % 256) k ≡ bit x k
bit-low_byte x zero h = ground arith
bit-low_byte x (suc zero) h = ground arith
bit-low_byte x (suc (suc zero)) h = ground arith
bit-low_byte x (suc (suc (suc zero))) h = ground arith
bit-low_byte x (suc (suc (suc (suc zero)))) h = ground arith
bit-low_byte x (suc (suc (suc (suc (suc zero))))) h = ground arith
bit-low_byte x (suc (suc (suc (suc (suc (suc zero)))))) h = ground arith
bit-low_byte x (suc (suc (suc (suc (suc (suc (suc zero))))))) h = ground arith
bit-low_byte x (suc (suc (suc (suc (suc (suc (suc (suc k)))))))) h = absurd (omega arith)

pub is_free-used : (m : Buf) (i : ℕ) → is_free m i ≡ not (used m i)
is_free-used m i = mask_test (m (i / 8)) (i % 8)

pub used-mark_used : (m : Buf) (i j : ℕ) → used (mark_used m i) j ≡ (used m j || (i == j))
unfolding mark_used
used-mark_used m i j = ground (
  arith,
  bit-low_byte (bit_or (m (i / 8)) (2 ^ (i % 8))) (j % 8),
  bit-set (m (i / 8)) (i % 8) (j % 8),
)

pub used-mark_free : (m : Buf) (i j : ℕ) → used (mark_free m i) j ≡ (used m j && not (i == j))
unfolding mark_free
used-mark_free m i j = ground (
  arith,
  bit-low_byte (bit_and (m (i / 8)) (2 ^ 32 - 1 - 2 ^ (i % 8))) (j % 8),
  bit-clear 32 (m (i / 8)) (i % 8) (j % 8),
)
