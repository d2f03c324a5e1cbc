-- ===== src/Ext2/Inode.antt =====
-- src/fs/ext2/inode.c: reading, writing and deleting inodes; and the reference count of the VFS inode
-- (src/fs/vfs/inode.c) that the operations on directories drop.
-- The status -1 is `failure`.
pub mod Raw
mod Tests
use dvivon_os.Ext2.Bitmap.{free_inode}
use dvivon_os.Ext2.Layout.{
  set_i_block, i_block, i_flags, set_i_blocks, i_blocks, set_i_flags, i_ctime, set_i_atime, i_mtime,
  set_i_mtime, i_atime, set_i_ctime, i_links_count, inode_bytes, set_i_gid, i_gid,
  set_i_links_count, bg_inode_table, i_uid, set_i_uid, i_size, inode_size, s_inodes_per_group,
  set_i_size, i_mode, set_i_mode,
}
use dvivon_os.Ext2.Truncate.{free_indirect, free_direct}
use dvivon_os.Base.{some, not, none, ◌%◌, ◌==◌, ◌^◌, Option, if◌then◌else◌, ◌*◌, ◌+◌, ◌-◌, ◌/◌, ℕ}
use dvivon_os.Str.{memcpy, memset}
use dvivon_os.Ext2.Map.{failure}
use dvivon_os.Base.Buf.{Buf}
use dvivon_os.Ext2.State.{Fs}
use dvivon_os.Ext2.Platform.{Platform}

-- `inode_t` of ext2 with its `ext2_inode_data_t`; `address` and `payload` are the pointers to the two.
-- The superblock and the operation table are those of the file system for every inode.
pub record Inode : Type 0 where
  pub address : ℕ
  pub payload : ℕ
  pub ino : ℕ
  pub mode : ℕ
  pub size : ℕ
  pub uid : ℕ
  pub gid : ℕ
  pub nlink : ℕ
  pub atime : ℕ
  pub mtime : ℕ
  pub ctime : ℕ
  pub blksize : ℕ
  pub blocks : ℕ
  pub flags : ℕ
  pub ref_count : ℕ
  pub disk_inode : Buf
  pub block_group : ℕ
  pub index_in_group : ℕ

-- `sizeof(ext2_inode_data_t)` and `sizeof(inode_t)`
abbrev pub data_size : ℕ
data_size = 136

abbrev pub vfs_inode_size : ℕ
vfs_inode_size = 64

module _ (pf : Platform) where
  open pf use {read_block, write_block, kmalloc, kfree, memory}

  abbrev pub group_of : ℕ → Fs pf → ℕ
  group_of ino s = (ino - 1) / s_inodes_per_group s.sb

  abbrev pub index_of : ℕ → Fs pf → ℕ
  index_of ino s = (ino - 1) % s_inodes_per_group s.sb

  -- `ext2_get_inode_block`
  abbrev pub get_inode_block : ℕ → Fs pf → ℕ
  get_inode_block ino s =
      let block_offset = index_of ino s * inode_size s.sb % 2 ^ 32 / s.block_size in
      if ino == 0 then 0 else (bg_inode_table s.group_desc (group_of ino s) + block_offset) % 2 ^ 32

  -- `blk` and `offset_in_block` of the two functions that follow.
  abbrev pub inode_blk : ℕ → Fs pf → ℕ
  inode_blk ino s =
      let inodes_per_block = s.block_size / inode_size s.sb in
      (bg_inode_table s.group_desc (group_of ino s) + index_of ino s / inodes_per_block) % 2 ^ 32

  abbrev pub offset_in_block : ℕ → Fs pf → ℕ
  offset_in_block ino s =
      let inodes_per_block = s.block_size / inode_size s.sb in
      index_of ino s % inodes_per_block * inode_size s.sb

  -- `ext2_read_inode_raw`: the status, and `*inode` afterwards.
  unfoldable pub read_inode_raw : ℕ → Buf → Fs pf → ℕ × Buf × Fs pf
  read_inode_raw ino inode s =
      if ino == 0
      then (failure, inode, s)
      else (let (p, heap) = kmalloc s.heap s.block_size in
          if p == 0
          then (failure, inode, record s { heap = heap })
          else (let (ret, buf) = read_block s.dev (inode_blk ino s) (memory heap p) in
              let inode' =
                if ret == 0
                then memcpy inode 0 buf (offset_in_block ino s) inode_bytes
                else inode in
              (ret, inode', record s { heap = kfree heap p })))

  -- `ext2_write_inode_raw`
  unfoldable pub write_inode_raw : ℕ → Buf → Fs pf → ℕ × Fs pf
  write_inode_raw ino inode s =
      if ino == 0
      then (failure, s)
      else (let (p, heap) = kmalloc s.heap s.block_size in
          if p == 0
          then (failure, record s { heap = heap })
          else (let (ret, buf) = read_block s.dev (inode_blk ino s) (memory heap p) in
              let buf' = memcpy buf (offset_in_block ino s) inode 0 inode_bytes in
              let (ret', dev) = write_block s.dev (inode_blk ino s) buf' in
              if ret == 0
              then (ret', record s { dev = dev; heap = kfree heap p })
              else (ret, record s { heap = kfree heap p })))

  -- `inode_new` and the assignments of `ext2_read_inode`.
  abbrev pub vfs_inode : (address payload ino : ℕ) → Buf → Fs pf → Inode
  vfs_inode address payload ino raw s = record {
    address = address;
    payload = payload;
    ino = ino;
    mode = i_mode raw;
    size = i_size raw;
    uid = i_uid raw;
    gid = i_gid raw;
    nlink = i_links_count raw;
    atime = i_atime raw;
    mtime = i_mtime raw;
    ctime = i_ctime raw;
    blksize = s.block_size;
    blocks = i_blocks raw;
    flags = i_flags raw;
    ref_count = 1;
    disk_inode = raw;
    block_group = group_of ino s;
    index_in_group = index_of ino s;
  }

  -- `ext2_read_inode`; none is NULL.
  unfoldable pub read_inode : ℕ → Fs pf → Option Inode × Fs pf
  read_inode ino s =
      if ino == 0
      then (none, s)
      else (let (ei, heap) = kmalloc s.heap data_size in
          if ei == 0
          then (none, record s { heap = heap })
          else (let empty = memset (memory heap ei) 0 0 inode_bytes in
              let (ret, raw, s₁) = read_inode_raw ino empty (record s { heap = heap }) in
              let (address, heap₁) = kmalloc s₁.heap vfs_inode_size in
              if not (ret == 0)
              then (none, record s₁ { heap = kfree s₁.heap ei })
              else if address == 0
              then (none, record s₁ { heap = kfree heap₁ ei })
              else (some (vfs_inode address ei ino raw s₁), record s₁ { heap = heap₁ })))

  -- The fields of the VFS inode put into the raw one.
  unfoldable pub to_raw : Inode → Buf
  to_raw i =
      let a = set_i_mode i.disk_inode i.mode in
      let b = set_i_size (set_i_uid a i.uid) i.size in
      let c = set_i_links_count (set_i_gid b i.gid) i.nlink in
      let d = set_i_ctime (set_i_mtime (set_i_atime c i.atime) i.mtime) i.ctime in
      set_i_flags (set_i_blocks d i.blocks) i.flags

  -- `ext2_write_inode`
  unfoldable pub write_inode : Inode → Fs pf → ℕ × Inode × Fs pf
  write_inode i s =
      let raw = to_raw i in
      let (ret, s') = write_inode_raw i.ino raw s in (ret, record i { disk_inode = raw }, s')

  -- `ext2_delete_inode`
  unfoldable pub delete_inode : Inode → Fs pf → Inode × Fs pf
  delete_inode i s =
      let (raw₁, s₁) = free_direct pf 12 0 i.disk_inode s in
      let s₂ = if i_block raw₁ 12 == 0 then s₁ else free_indirect pf raw₁ s₁ in
      let raw₂ = if i_block raw₁ 12 == 0 then raw₁ else set_i_block raw₁ 12 0 in
      let raw₃ = memset raw₂ 0 0 inode_bytes in
      let s₃ = (write_inode_raw i.ino raw₃ s₂).1 in
      (record i { disk_inode = raw₃ }, free_inode pf i.ino s₃)

  -- `inode_get`
  abbrev pub inode_get : Inode → Inode
  inode_get i = record i { ref_count = (i.ref_count + 1) % 2 ^ 32 }

  -- `inode_put`, with `inode_free` when no reference is left.
  unfoldable pub inode_put : Inode → Fs pf → Fs pf
  inode_put i s =
      let left = (i.ref_count + 2 ^ 32 - 1) % 2 ^ 32 in
      let heap = if i.payload == 0 then s.heap else kfree s.heap i.payload in
      if left == 0 then record s { heap = kfree heap i.address } else s
