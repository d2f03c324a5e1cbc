-- ===== src/Ext2/Mount/Validate.antt =====
-- `ext2_validate_superblock`, src/fs/ext2/superblock.c.
use dvivon_os.Base.{
  arith, leb, ◌≤◌, ◌%◌, ◌^◌, ◌||◌, ltb, refl, ◌*◌, if◌then◌else◌, not, true, ◌↔◌, Bool, ◌<◌, ◌≡◌, ℕ,
}
use dvivon_os.Ext2.Layout.{s_rev_level, s_log_block_size, magic, s_magic}
use dvivon_os.Base.Search.{all_below-holds, all_below}
use dvivon_os.Base.Buf.{Buf}
use dvivon_os.Ext2.Mount.{validate_superblock}

abbrev supported : ℕ → Bool
supported n = not (ltb n 1024 || ltb 4096 n)

abbrev agrees : ℕ → Bool
agrees k = if supported (1024 * 2 ^ k % 2 ^ 32) then leb k 2 else not (leb k 2)

sizes_agree : all_below agrees 32 ≡ true
unfolding all_below
sizes_agree = refl

sizes : (k : ℕ) → k < 32 → agrees k ≡ true
sizes k lt = all_below-holds agrees 32 k sizes_agree lt

-- `ext2_validate_superblock` accepts a superblock whose logarithm of the block size is less than 32
-- exactly when it has the magic number, a logarithm of at most 2, that is a block size of 1024, 2048 or
-- 4096 bytes, and a revision of at most 1, whatever features it asks for.
pub validate_superblock_iff :
    (sb : Buf)
    → s_log_block_size sb < 32
    → (validate_superblock sb ≡ 0)
      ↔ ((s_magic sb ≡ magic) × (s_log_block_size sb ≤ 2) × (s_rev_level sb ≤ 1))
unfolding validate_superblock
validate_superblock_iff sb defined =
    let k = s_log_block_size sb % 32 in
    let e : k ≡ s_log_block_size sb = omega arith in
    ((λ a. ground (arith, sizes k (omega arith))), (λ h. ground (arith, sizes k (omega arith))))
