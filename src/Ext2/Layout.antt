-- ===== src/Ext2/Layout.antt =====
-- src/include/fs/ext2/ext2.h: the packed structures of the disk, as bytes. Each field stands at its
-- offset, which `__attribute__((packed))` fixes; the superblock has 1024 bytes, a group descriptor
-- 32, an inode 128.
use dvivon_os.Base.{leb, ◌*◌, ◌+◌, if◌then◌else◌, ℕ}
use dvivon_os.Base.Buf.{get16, get32, put16, put32, Buf}

abbrev pub magic : ℕ
magic = 0xef53

abbrev pub root_ino : ℕ
root_ino = 2

abbrev pub superblock_size : ℕ
superblock_size = 1024

abbrev pub group_desc_size : ℕ
group_desc_size = 32

abbrev pub inode_bytes : ℕ
inode_bytes = 128

module _ (sb : Buf) where
  abbrev pub s_inodes_count : ℕ
  s_inodes_count = get32 sb 0

  abbrev pub s_blocks_count : ℕ
  s_blocks_count = get32 sb 4

  abbrev pub s_free_blocks_count : ℕ
  s_free_blocks_count = get32 sb 12

  abbrev pub s_free_inodes_count : ℕ
  s_free_inodes_count = get32 sb 16

  abbrev pub s_first_data_block : ℕ
  s_first_data_block = get32 sb 20

  abbrev pub s_log_block_size : ℕ
  s_log_block_size = get32 sb 24

  abbrev pub s_blocks_per_group : ℕ
  s_blocks_per_group = get32 sb 32

  abbrev pub s_inodes_per_group : ℕ
  s_inodes_per_group = get32 sb 40

  abbrev pub s_magic : ℕ
  s_magic = get16 sb 56

  abbrev pub s_rev_level : ℕ
  s_rev_level = get32 sb 76

  abbrev pub s_inode_size : ℕ
  s_inode_size = get16 sb 88

  abbrev pub set_free_blocks_count : ℕ → Buf
  set_free_blocks_count v = put32 sb 12 v

  abbrev pub set_free_inodes_count : ℕ → Buf
  set_free_inodes_count v = put32 sb 16 v

-- The descriptor of group g in the array `group_desc`.
module _ (gd : Buf) (g : ℕ) where
  abbrev pub bg_block_bitmap : ℕ
  bg_block_bitmap = get32 gd (32 * g)

  abbrev pub bg_inode_bitmap : ℕ
  bg_inode_bitmap = get32 gd (32 * g + 4)

  abbrev pub bg_inode_table : ℕ
  bg_inode_table = get32 gd (32 * g + 8)

  abbrev pub bg_free_blocks_count : ℕ
  bg_free_blocks_count = get16 gd (32 * g + 12)

  abbrev pub bg_free_inodes_count : ℕ
  bg_free_inodes_count = get16 gd (32 * g + 14)

  abbrev pub bg_used_dirs_count : ℕ
  bg_used_dirs_count = get16 gd (32 * g + 16)

  abbrev pub set_bg_free_blocks_count : ℕ → Buf
  set_bg_free_blocks_count v = put16 gd (32 * g + 12) v

  abbrev pub set_bg_free_inodes_count : ℕ → Buf
  set_bg_free_inodes_count v = put16 gd (32 * g + 14) v

  abbrev pub set_bg_used_dirs_count : ℕ → Buf
  set_bg_used_dirs_count v = put16 gd (32 * g + 16) v

module _ (inode : Buf) where
  abbrev pub i_mode : ℕ
  i_mode = get16 inode 0

  abbrev pub i_uid : ℕ
  i_uid = get16 inode 2

  abbrev pub i_size : ℕ
  i_size = get32 inode 4

  abbrev pub i_atime : ℕ
  i_atime = get32 inode 8

  abbrev pub i_ctime : ℕ
  i_ctime = get32 inode 12

  abbrev pub i_mtime : ℕ
  i_mtime = get32 inode 16

  abbrev pub i_gid : ℕ
  i_gid = get16 inode 24

  abbrev pub i_links_count : ℕ
  i_links_count = get16 inode 26

  abbrev pub i_blocks : ℕ
  i_blocks = get32 inode 28

  abbrev pub i_flags : ℕ
  i_flags = get32 inode 32

  -- `i_block[k]`
  abbrev pub i_block : ℕ → ℕ
  i_block k = get32 inode (40 + 4 * k)

  abbrev pub set_i_block : ℕ → ℕ → Buf
  set_i_block k v = put32 inode (40 + 4 * k) v

module _ (inode : Buf) where
  abbrev pub set_i_mode : ℕ → Buf
  set_i_mode v = put16 inode 0 v

  abbrev pub set_i_uid : ℕ → Buf
  set_i_uid v = put16 inode 2 v

  abbrev pub set_i_size : ℕ → Buf
  set_i_size v = put32 inode 4 v

  abbrev pub set_i_atime : ℕ → Buf
  set_i_atime v = put32 inode 8 v

  abbrev pub set_i_ctime : ℕ → Buf
  set_i_ctime v = put32 inode 12 v

  abbrev pub set_i_mtime : ℕ → Buf
  set_i_mtime v = put32 inode 16 v

  abbrev pub set_i_gid : ℕ → Buf
  set_i_gid v = put16 inode 24 v

  abbrev pub set_i_links_count : ℕ → Buf
  set_i_links_count v = put16 inode 26 v

  abbrev pub set_i_blocks : ℕ → Buf
  set_i_blocks v = put32 inode 28 v

  abbrev pub set_i_flags : ℕ → Buf
  set_i_flags v = put32 inode 32 v

-- The inode size that the superblock gives.
abbrev pub inode_size : Buf → ℕ
inode_size sb = if leb 1 (s_rev_level sb) then s_inode_size sb else 128
