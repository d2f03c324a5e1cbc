-- ===== src/Ext2/Mount/Tests.antt =====
-- A superblock that is accepted.
use dvivon_os.Ext2.Mount.Validate.{validate_superblock_iff}
use dvivon_os.Ext2.Layout.{s_rev_level, s_log_block_size, magic, s_magic}
use dvivon_os.Base.{◌≤◌, ◌<◌, arith, refl, ◌↔◌, ◌≡◌}
use dvivon_os.Base.Buf.{zeros, get16, put16, get32, put32, Buf}
use dvivon_os.Ext2.Mount.{validate_superblock}

abbrev good_sb : Buf
good_sb = put32 (put16 zeros 56 magic) 24 1

small_log : s_log_block_size good_sb < 32
unfolding get32 put32 put16
small_log = omega arith

validate_superblock_example :
    (validate_superblock good_sb ≡ 0)
    ↔ ((s_magic good_sb ≡ magic) × (s_log_block_size good_sb ≤ 2) × (s_rev_level good_sb ≤ 1))
validate_superblock_example = validate_superblock_iff good_sb small_log

good_is_accepted : validate_superblock good_sb ≡ 0
unfolding validate_superblock get32 put32 get16 put16
good_is_accepted = refl
