-- ===== src/Ext2/File/Tests.antt =====
-- A read that stops at the end of the file.
use dvivon_os.Base.{arith, ◌-◌, ltb, if◌then◌else◌, refl, ◌≡◌}
use dvivon_os.Ext2.File.Length.{read-length}
use dvivon_os.Ext2.Ram.{small, ram}
use dvivon_os.Ext2.Layout.{set_i_size}
use dvivon_os.Base.Buf.{zeros, put32, get32}
use dvivon_os.Ext2.Inode.{vfs_inode, Inode}
use dvivon_os.Ext2.File.{read}

abbrev short_file : Inode
short_file = vfs_inode ram 4096 4100 12 (set_i_size zeros 3000) small

short_size : short_file.size ≡ 3000
unfolding get32 put32
short_size = refl

read-length_example :
    (read ram short_file zeros 4000 100 small).0
    ≡ (if ltb 4000 (short_file.size - 100) then 4000 else short_file.size - 100)
read-length_example =
    read-length ram short_file zeros 4000 100 small (omega arith) (omega arith)
      (λ e. omega (arith, e))
