-- ===== src/Ext2/Map/Tests.antt =====
-- A file on the small file system that gets its block 12, the first behind an indirect block.
use dvivon_os.Base.{refl, arith, ◌≡◌}
use dvivon_os.Ext2.Bitmap.{mark_used, store, take_bit, alloc}
use dvivon_os.Str.{memcpy}
use dvivon_os.Base.Buf.{put16, get16, put32, get32, zeros, Buf}
use dvivon_os.Ext2.State.{flush_superblock, flush_group_desc}
use dvivon_os.Base.Search.{find_from}
use dvivon_os.Ext2.Map.{
  alloc_indirect_block, ensure_pointer, assign_single, assign_block_num, resolve_block_num,
}
use dvivon_os.Ext2.Ram.{ram-Reliable, small, ram}
use dvivon_os.Ext2.Map.RoundTrip.{resolve-assign}

abbrev raw : Buf
raw = zeros

assigned : (assign_block_num ram raw 12 40 1024 small).0 ≡ 0
unfolding assign_block_num assign_single ensure_pointer alloc_indirect_block alloc find_from
    take_bit store flush_group_desc flush_superblock get32 put32 get16 put16 memcpy mark_used
assigned = refl

resolve-assign_example :
    (resolve_block_num ram
      (assign_block_num ram raw 12 40 1024 small).1
      12
      1024
      (assign_block_num ram raw 12 40 1024 small).2).0
    ≡ 40
resolve-assign_example =
    resolve-assign ram 1024 (ram-Reliable 1024) raw 12 40 small (omega arith) (omega arith) assigned
      (λ z. omega (arith, z)) (λ h. absurd (omega arith))
