-- ===== src/Ext2/State.antt =====
-- `ext2_fs_data_t`, and the writing back of its two tables (src/fs/ext2/superblock.c).
use dvivon_os.Ext2.Layout.{superblock_size, group_desc_size, s_first_data_block}
use dvivon_os.Str.{memcpy}
use dvivon_os.Base.{◌*◌, ◌-◌, ◌%◌, ◌^◌, ◌+◌, ◌==◌, if◌then◌else◌, ◌/◌, ℕ}
use dvivon_os.Base.Buf.{Buf}
use dvivon_os.Ext2.Platform.{Platform}

module _ (pf : Platform) where
  open pf use {Dev, Heap, read_block, write_block, kmalloc, kfree, memory}

  -- The device, the heap and the file system's private data. `sb` and `group_desc` are the in-memory
  -- copies, `*fs->sb` and `fs->group_desc[]`.
  pub record Fs : Type 0 where
    pub dev : Dev
    pub heap : Heap
    pub sb : Buf
    pub group_desc : Buf
    pub groups_count : ℕ
    pub block_size : ℕ

  -- `ext2_flush_superblock`: block 1, or offset 1024 of block 0.
  unfoldable pub flush_superblock : Fs → ℕ × Fs
  flush_superblock s =
      if s.block_size == 1024
      then (let (r, dev) = write_block s.dev 1 s.sb in (r, record s { dev = dev }))
      else (let (p, heap) = kmalloc s.heap s.block_size in
          if p == 0
          then (2 ^ 32 - 1, record s { heap = heap })
          else (let buf = (read_block s.dev 0 (memory heap p)).1 in
              let (r, dev) = write_block s.dev 0 (memcpy buf 1024 s.sb 0 superblock_size) in
              (r, record s { dev = dev; heap = kfree heap p })))

  abbrev pub gd_per_block : Fs → ℕ
  gd_per_block s = s.block_size / group_desc_size

  -- The block of the descriptor table that holds the descriptor of a group.
  abbrev pub gd_block : Fs → ℕ → ℕ
  gd_block s group = (s_first_data_block s.sb + 1 + group / gd_per_block s) % 2 ^ 32

  -- `ext2_flush_group_desc`
  unfoldable pub flush_group_desc : ℕ → Fs → ℕ × Fs
  flush_group_desc group s =
      let (p, heap) = kmalloc s.heap s.block_size in
      if p == 0
      then (2 ^ 32 - 1, record s { heap = heap })
      else (let buf = (read_block s.dev (gd_block s group) (memory heap p)).1 in
          let off = group % gd_per_block s * group_desc_size in
          let buf' = memcpy buf off s.group_desc (32 * group) group_desc_size in
          let (r, dev) = write_block s.dev (gd_block s group) buf' in
          (r, record s { dev = dev; heap = kfree heap p }))
