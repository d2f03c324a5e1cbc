-- ===== src/Ext2/File.antt =====
-- Reading and writing of files, src/fs/ext2/ext2_ops.c, and `ext2_readdir` of
-- src/fs/ext2/directory.c, whose loop is the one of `ext2_read`.
pub mod Length
mod Tests
use dvivon_os.Ext2.Bitmap.{free_block, alloc_block}
use dvivon_os.Base.{
  zero, none, not, some, ◌||◌, leb, ◌/◌, ◌-◌, ◌^◌, ◌%◌, bit_and, ltb, ◌+◌, ◌==◌, Option, bit_or,
  if◌then◌else◌, suc, ℕ,
}
use dvivon_os.Str.{memcpy, memset}
use dvivon_os.Ext2.Layout.{i_blocks, set_i_blocks, set_i_size}
use dvivon_os.Ext2.Map.{assign_block_num, failure, resolve_block_num}
use dvivon_os.Ext2.Inode.{write_inode, Inode}
use dvivon_os.Ext2.Entry.{type_mask, is_dir}
use dvivon_os.Base.Buf.{Buf}
use dvivon_os.Ext2.State.{Fs}
use dvivon_os.Ext2.Platform.{Platform}

module _ (pf : Platform) where
  open pf use {read_block, write_block, kmalloc, kfree, memory}

  -- The while loop of `ext2_read`: `done` bytes of `count` are in `out`; `buf` is the scratch block.
  -- Every round adds at least one byte, so that fuel `count` is enough.
  pub read_loop :
      (fuel : ℕ)
      → (inode : Buf) → (count offset done : ℕ) → (buf out : Buf) → Fs pf
      → ℕ × Buf × Fs pf
  read_loop zero inode count offset done buf out s = (done, out, s)
  read_loop (suc fuel) inode count offset done buf out s =
      let bs = s.block_size in
      let pos = (offset + done) % 2 ^ 32 in
      let boff = pos % bs in
      let avail = bs - boff in
      let chunk = if ltb (count - done) avail then count - done else avail in
      let (phys, s₁) = resolve_block_num pf inode (pos / bs) bs s in
      let read = (read_block s₁.dev phys buf).1 in
      let hole =
        read_loop fuel inode count offset (done + chunk) buf (memset out done 0 chunk) s₁ in
      let next =
        read_loop fuel inode count offset (done + chunk) read (memcpy out done read boff chunk)
          s₁ in
      if not (ltb done count) then (done, out, s) else if phys == 0 then hole else next

  -- `ext2_read`: the number of bytes read, and the buffer.
  unfoldable pub read : Inode → (out : Buf) → (count offset : ℕ) → Fs pf → ℕ × Buf × Fs pf
  unfolding read_loop
  read i out count offset s =
      let clamped = if ltb i.size ((offset + count) % 2 ^ 32) then i.size - offset else count in
      let (p, heap) = kmalloc s.heap s.block_size in
      let s₁ : Fs pf = record s { heap = heap } in
      if leb i.size offset || (clamped == 0)
      then (0, out, s)
      else if p == 0
      then (failure, out, s₁)
      else (let (n, out', s₂) =
            read_loop clamped i.disk_inode clamped offset 0 (memory heap p) out s₁ in
          (n, out', record s₂ { heap = kfree s₂.heap p }))

  -- `ext2_readdir`
  unfoldable pub readdir : Inode → (out : Buf) → (size offset : ℕ) → Fs pf → ℕ × Buf × Fs pf
  readdir dir out size offset s =
      if is_dir dir.mode then read dir out size offset s else (failure, out, s)

  -- The block for a logical block of a file that is written: the one it has, or a new one with zeros
  -- in the scratch block; none where the loop is left.
  unfoldable pub writable_block :
      Inode → (blk boff chunk : ℕ) → (buf : Buf) → Fs pf → Option (ℕ × Buf) × Inode × Fs pf
  writable_block i blk boff chunk buf s =
      let bs = s.block_size in
      let (phys, s₁) = resolve_block_num pf i.disk_inode blk bs s in
      let (new, s₂) = alloc_block pf s₁ in
      let (r, raw, s₃) = assign_block_num pf i.disk_inode blk new bs s₂ in
      let raw₁ = set_i_blocks raw (i_blocks raw + bs / 512) in
      let partial = not (boff == 0) || not (chunk == bs) in
      let read = (read_block s₁.dev phys buf).1 in
      if not (phys == 0)
      then (some (phys, if partial then read else buf), i, s₁)
      else if new == 0
      then (none, i, s₂)
      else if r == 0
      then (
        some (new, memset buf 0 0 bs),
        record i { blocks = i_blocks raw₁; disk_inode = raw₁ },
        s₃,
      )
      else (none, record i { disk_inode = raw }, free_block pf new s₃)

  -- The while loop of `ext2_write`.
  pub write_loop :
      (fuel : ℕ)
      → Inode
      → (source : Buf) → (count offset done : ℕ) → (buf : Buf) → Fs pf
      → ℕ × Inode × Fs pf
  write_loop zero i source count offset done buf s = (done, i, s)
  write_loop (suc fuel) i source count offset done buf s =
      let bs = s.block_size in
      let pos = (offset + done) % 2 ^ 32 in
      let boff = pos % bs in
      let avail = bs - boff in
      let chunk = if ltb (count - done) avail then count - done else avail in
      let (target, i₁, s₁) = writable_block i (pos / bs) boff chunk buf s in
      let pair : ℕ × Buf = elim target [ some t ↦ t | none ↦ (0, buf) ] in
      let (phys, block) = pair in
      let block' = memcpy block boff source done chunk in
      let dev = (write_block s₁.dev phys block').1 in
      let next =
        write_loop fuel i₁ source count offset (done + chunk) block' (record s₁ { dev = dev }) in
      if not (ltb done count)
      then (done, i, s)
      else elim target [ some t ↦ next | none ↦ (done, i₁, s₁) ]

  -- `ext2_write`: the number of bytes written.
  unfoldable pub write : Inode → (source : Buf) → (count offset : ℕ) → Fs pf → ℕ × Inode × Fs pf
  unfolding write_loop
  write i source count offset s =
      let (p, heap) = kmalloc s.heap s.block_size in
      let s₁ : Fs pf = record s { heap = heap } in
      if p == 0
      then (failure, i, s₁)
      else (let (n, i₁, s₂) = write_loop count i source count offset 0 (memory heap p) s₁ in
          let end = (offset + n) % 2 ^ 32 in
          let i₂ : Inode =
            if ltb i₁.size end
            then record i₁ { size = end; disk_inode = set_i_size i₁.disk_inode end }
            else i₁ in
          let (_, i₃, s₃) = write_inode pf i₂ (record s₂ { heap = kfree s₂.heap p }) in (n, i₃, s₃))

  -- `ext2_chmod`
  unfoldable pub chmod : Inode → (mode : ℕ) → Fs pf → ℕ × Inode × Fs pf
  chmod i mode s =
      let mode' = bit_or (bit_and i.mode type_mask) (bit_and mode 0xfff) in
      write_inode pf (record i { mode = mode' }) s

-- `fs_stat_t`
pub record Stat : Type 0 where
  pub ino : ℕ
  pub mode : ℕ
  pub size : ℕ
  pub uid : ℕ
  pub gid : ℕ
  pub nlink : ℕ
  pub atime : ℕ
  pub mtime : ℕ
  pub ctime : ℕ
  pub blksize : ℕ
  pub blocks : ℕ

-- `ext2_stat`
unfoldable pub stat : Inode → Stat
stat i = record {
  ino = i.ino;
  mode = i.mode;
  size = i.size;
  uid = i.uid;
  gid = i.gid;
  nlink = i.nlink;
  atime = i.atime;
  mtime = i.mtime;
  ctime = i.ctime;
  blksize = i.blksize;
  blocks = i.blocks;
}
