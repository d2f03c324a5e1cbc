-- ===== src/Ext2/Dir/Ops.antt =====
-- The operations on directories of src/fs/ext2/directory.c that a VFS inode offers: create, mkdir,
-- unlink and rmdir.
use dvivon_os.Base.{
  ltb, not, [], bit_and, zero, ◌%◌, ◌∷◌, bit_or, ◌-◌, ◌/◌, ◌==◌, ◌^◌, if◌then◌else◌, ◌+◌, suc, ℕ,
  none, some,
}
use dvivon_os.Ext2.Entry.{is_dir, type_regular, set_rec_len, put_entry, type_dir}
use dvivon_os.Ext2.Dir.{block_count, add_dir_entry, count_entries, lookup, remove_dir_entry}
use dvivon_os.Ext2.Inode.{inode_put, delete_inode, write_inode, write_inode_raw, group_of, Inode}
use dvivon_os.Ext2.Layout.{
  set_i_block, bg_used_dirs_count, set_bg_used_dirs_count, set_i_mode, set_i_size, set_i_blocks,
  set_i_links_count,
}
use dvivon_os.Ext2.Bitmap.{free_block, free_inode, alloc_block, alloc_inode}
use dvivon_os.Ext2.Map.{failure, resolve_block_num}
use dvivon_os.Ext2.State.{flush_group_desc, Fs}
use dvivon_os.Base.Buf.{zeros, Buf}
use dvivon_os.Str.{memset, CString}
use dvivon_os.Ext2.Platform.{Platform}

-- `memset(&raw, 0, sizeof(raw))`, the mode and the link count.
abbrev pub new_inode : (type mode links : ℕ) → Buf
new_inode type mode links =
    set_i_links_count (set_i_mode zeros (bit_or type (bit_and mode 0xfff))) links

-- The block of a new directory, with its entries `.` and `..`.
unfoldable pub dot_block : (bs ino parent : ℕ) → Buf → Buf
dot_block bs ino parent buf =
    let zeroed = memset buf 0 0 bs in
    let dot = put_entry (set_rec_len zeroed 0 12) 0 ino (46 ∷ []) 2 in
    put_entry (set_rec_len dot 12 (bs + 2 ^ 32 - 12)) 12 parent (46 ∷ 46 ∷ []) 2

module _ (pf : Platform) where
  open pf use {read_block, write_block, kmalloc, kfree, memory}

  -- `ext2_create`
  unfoldable pub create : Inode → CString → (mode : ℕ) → Fs pf → ℕ × Inode × Fs pf
  create dir name mode s =
      let (ino, s₁) = alloc_inode pf s in
      if ino == 0
      then (failure, dir, s₁)
      else (let s₂ = (write_inode_raw pf ino (new_inode type_regular mode 1) s₁).1 in
          let (r, dir₁, s₃) = add_dir_entry pf dir name ino 1 s₂ in
          if r == 0 then (0, dir₁, s₃) else (failure, dir₁, free_inode pf ino s₃))

  -- `bg_used_dirs_count++` and `bg_used_dirs_count--` of an inode's group, with the flush.
  unfoldable pub count_dir : (ino delta : ℕ) → Fs pf → Fs pf
  count_dir ino delta s =
      let g = group_of pf ino s in
      let gd = set_bg_used_dirs_count s.group_desc g (bg_used_dirs_count s.group_desc g + delta) in
      (flush_group_desc pf g (record s { group_desc = gd })).1

  -- The end of `ext2_mkdir`, from the writing of the new inode on.
  unfoldable pub enter_dir : Inode → CString → (mode ino blk : ℕ) → Fs pf → ℕ × Inode × Fs pf
  enter_dir dir name mode ino blk s =
      let bs = s.block_size in
      let sized = set_i_blocks (set_i_size (new_inode type_dir mode 2) bs) (bs / 512) in
      let s₁ = (write_inode_raw pf ino (set_i_block sized 0 blk) s).1 in
      let (r, dir₁, s₂) = add_dir_entry pf dir name ino 2 s₁ in
      let linked = record dir₁ { nlink = (dir₁.nlink + 1) % 2 ^ 32 } in
      let (_, dir₂, s₃) = write_inode pf linked s₂ in
      if r == 0
      then (0, dir₂, count_dir ino 1 s₃)
      else (failure, dir₁, free_inode pf ino (free_block pf blk s₂))

  -- `ext2_mkdir`
  unfoldable pub mkdir : Inode → CString → (mode : ℕ) → Fs pf → ℕ × Inode × Fs pf
  mkdir dir name mode s =
      let bs = s.block_size in
      let (ino, s₁) = alloc_inode pf s in
      let (blk, s₂) = alloc_block pf s₁ in
      let (p, heap) = kmalloc s₂.heap bs in
      let s₃ : Fs pf = record s₂ { heap = heap } in
      if ino == 0
      then (failure, dir, s₁)
      else if blk == 0
      then (failure, dir, free_inode pf ino s₂)
      else if p == 0
      then (failure, dir, free_inode pf ino (free_block pf blk s₃))
      else (let dev = (write_block s₂.dev blk (dot_block bs ino dir.ino (memory heap p))).1 in
          enter_dir dir name mode ino blk (record s₂ { dev = dev; heap = kfree heap p }))

  -- `ext2_unlink`
  unfoldable pub unlink : Inode → CString → Fs pf → ℕ × Fs pf
  unlink dir name s =
      let (found, s₁) = lookup pf dir name s in
      elim found [
        | none ↦ (failure, s₁)
        | some target ↦
            let (r, s₂) = remove_dir_entry pf dir name s₁ in
            let left = (target.nlink + 2 ^ 32 - 1) % 2 ^ 32 in
            let target₁ : Inode = record target { nlink = left } in
            let (deleted, s₃) = delete_inode pf target₁ s₂ in
            let (_, written, s₄) = write_inode pf target₁ s₂ in
            if is_dir target.mode
            then (failure, inode_put pf target s₁)
            else if not (r == 0)
            then (failure, inode_put pf target s₂)
            else if left == 0
            then (0, inode_put pf deleted s₃)
            else (0, inode_put pf written s₄)
      ]

  -- The loop of `ext2_rmdir` that counts the entries in use, n blocks left from b on.
  pub count_blocks : (n b : ℕ) → Buf → (inode : Buf) → Fs pf → ℕ × Fs pf
  count_blocks zero b buf inode s = (0, s)
  count_blocks (suc n) b buf inode s =
      let bs = s.block_size in
      let (phys, s₁) = resolve_block_num pf inode b bs s in
      let read = (read_block s₁.dev phys buf).1 in
      let skip = count_blocks n (b + 1) buf inode s₁ in
      let (c, s₂) = count_blocks n (b + 1) read inode s₁ in
      if phys == 0 then skip else (count_entries bs read bs 0 + c, s₂)

  -- The end of `ext2_rmdir`, for an empty directory.
  unfoldable pub remove_dir : Inode → CString → (target : Inode) → Fs pf → ℕ × Inode × Fs pf
  remove_dir dir name target s =
      let (r, s₁) = remove_dir_entry pf dir name s in
      let linked = record dir { nlink = (dir.nlink + 2 ^ 32 - 1) % 2 ^ 32 } in
      let (_, dir₁, s₂) = write_inode pf linked s₁ in
      let (deleted, s₃) = delete_inode pf target s₂ in
      let g = group_of pf target.ino s₃ in
      let s₄ =
        if bg_used_dirs_count s₃.group_desc g == 0
        then (flush_group_desc pf g s₃).1
        else count_dir target.ino (2 ^ 16 - 1) s₃ in
      if r == 0 then (0, dir₁, inode_put pf deleted s₄) else (failure, dir, inode_put pf target s₁)

  -- `ext2_rmdir`
  unfoldable pub rmdir : Inode → CString → Fs pf → ℕ × Inode × Fs pf
  unfolding count_blocks
  rmdir dir name s =
      let bs = s.block_size in
      let (found, s₁) = lookup pf dir name s in
      elim found [
        | none ↦ (failure, dir, s₁)
        | some target ↦
            let (p, heap) = kmalloc s₁.heap bs in
            let s₂ : Fs pf = record s₁ { heap = heap } in
            let (entries, s₃) =
              count_blocks (block_count target.size bs) 0 (memory heap p) target.disk_inode s₂ in
            let s₄ : Fs pf = record s₃ { heap = kfree s₃.heap p } in
            if not (is_dir target.mode)
            then (failure, dir, inode_put pf target s₁)
            else if p == 0
            then (failure, dir, inode_put pf target s₂)
            else if ltb 2 entries
            then (failure, dir, inode_put pf target s₄)
            else remove_dir dir name target s₄
      ]
