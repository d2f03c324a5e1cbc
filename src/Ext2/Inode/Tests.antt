-- ===== src/Ext2/Inode/Tests.antt =====
-- Inode 3 of the small file system, written and read.
use dvivon_os.Base.{arith, refl, ◌≤◌, ◌+◌, ◌≡◌}
use dvivon_os.Ext2.Ram.{ram-Reliable, small, ram}
use dvivon_os.Ext2.Inode.Raw.{read-write_inode_raw}
use dvivon_os.Ext2.Layout.{set_i_mode, set_i_size}
use dvivon_os.Ext2.Inode.{offset_in_block, read_inode_raw, write_inode_raw}
use dvivon_os.Base.Buf.{zeros, put32, Buf, get32}

abbrev some_inode : Buf
some_inode = set_i_size (set_i_mode zeros 33188) 700

room : offset_in_block ram 3 small + 128 ≤ 1024
unfolding get32 put32
room = omega arith

written : (write_inode_raw ram 3 some_inode small).0 ≡ 0
unfolding write_inode_raw get32 put32
written = refl

read-write_inode_raw_example :
    ((read_inode_raw ram 3 zeros (write_inode_raw ram 3 some_inode small).1).0 ≡ 0)
    × ((read_inode_raw ram 3 zeros (write_inode_raw ram 3 some_inode small).1).1 5 ≡ some_inode 5)
read-write_inode_raw_example =
    read-write_inode_raw ram 1024 (ram-Reliable 1024) 3 some_inode small zeros 5 room (omega arith)
      written (λ e. omega (arith, e))
