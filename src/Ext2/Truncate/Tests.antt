-- ===== src/Ext2/Truncate/Tests.antt =====
-- A file of three blocks that shrinks to one.
use dvivon_os.Base.{arith, ◌^◌, ◌*◌, ◌+◌, ◌≤◌, ltb, ◌&&◌, leb, if◌then◌else◌, ◌≡◌}
use dvivon_os.Ext2.Truncate.Pointers.{truncate_inode-pointers}
use dvivon_os.Ext2.Layout.{i_size, set_i_size, set_i_block, i_block}
use dvivon_os.Base.Buf.{zeros, get32, put32, Buf}
use dvivon_os.Ext2.Ram.{small, ram}
use dvivon_os.Ext2.Truncate.{truncate_inode}

abbrev three_blocks : Buf
three_blocks = set_i_block (set_i_block (set_i_block (set_i_size zeros 3000) 0 20) 1 21) 2 22

three_blocks_fits : i_size three_blocks + 1024 ≤ 2 ^ 32
unfolding get32 put32
three_blocks_fits = omega arith

truncate_inode_example :
    (i_block (truncate_inode ram three_blocks 700 small).0 1 ≡ (
      if leb 700 (1 * 1024) && ltb (1 * 1024) (i_size three_blocks)
      then 0
      else i_block three_blocks 1))
    × (i_size (truncate_inode ram three_blocks 700 small).0 ≡ 700)
truncate_inode_example =
    truncate_inode-pointers ram three_blocks 700 small 1 (omega arith) (omega arith) (omega arith)
      three_blocks_fits
