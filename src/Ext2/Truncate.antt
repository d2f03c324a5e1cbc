-- ===== src/Ext2/Truncate.antt =====
-- `ext2_truncate_inode`, src/fs/ext2/block.c, and `ext2_delete_inode`, src/fs/ext2/inode.c: the
-- release of the blocks of an inode.
pub mod Pointers
mod Tests
use dvivon_os.Base.{
  ◌*◌, not, ◌&&◌, leb, ◌%◌, ltb, zero, ◌-◌, ◌==◌, ◌^◌, if◌then◌else◌, ◌+◌, suc, ◌/◌, ℕ,
}
use dvivon_os.Ext2.Layout.{set_i_size, set_i_blocks, set_i_block, i_block, i_size}
use dvivon_os.Ext2.Map.{entry, set_entry}
use dvivon_os.Ext2.Bitmap.{free_block}
use dvivon_os.Ext2.State.{gd_block, Fs}
use dvivon_os.Base.Buf.{Buf}
use dvivon_os.Ext2.Platform.{Platform}

module _ (pf : Platform) where
  open pf use {read_block, write_block, kmalloc, kfree, memory}

  -- The loop that frees `i_block[i]`, n of them left.
  pub free_direct : (n i : ℕ) → Buf → Fs pf → Buf × Fs pf
  free_direct zero i inode s = (inode, s)
  free_direct (suc n) i inode s =
      let freed =
        free_direct n (i + 1) (set_i_block inode i 0) (free_block pf (i_block inode i) s) in
      let kept = free_direct n (i + 1) inode s in if i_block inode i == 0 then kept else freed

  -- The loop that frees `ind[i]` and clears it, n of them left.
  pub free_entries : (n i : ℕ) → Buf → Fs pf → Buf × Fs pf
  free_entries zero i ind s = (ind, s)
  free_entries (suc n) i ind s =
      let freed = free_entries n (i + 1) (set_entry ind i 0) (free_block pf (entry ind i) s) in
      let kept = free_entries n (i + 1) ind s in if entry ind i == 0 then kept else freed

  -- The blocks below the singly indirect one, and that block itself when no entry of it stays.
  unfoldable pub truncate_indirect : (new_blocks : ℕ) → Buf → Fs pf → Buf × Fs pf
  unfolding free_entries
  truncate_indirect new_blocks inode s =
      let ptrs = s.block_size / 4 in
      let (p, heap) = kmalloc s.heap s.block_size in
      let s₁ = record s { heap = heap } in
      if p == 0
      then (inode, s₁)
      else (let ind = (read_block s.dev (i_block inode 12) (memory heap p)).1 in
          let start = if ltb 12 new_blocks then new_blocks - 12 else 0 in
          let (ind₁, s₂) = free_entries (ptrs - start) start ind s₁ in
          if leb new_blocks 12
          then (let s₃ = free_block pf (i_block inode 12) s₂ in
              (set_i_block inode 12 0, record s₃ { heap = kfree s₃.heap p }))
          else (
            inode,
            record s₂ {
              dev = (write_block s₂.dev (i_block inode 12) ind₁).1;
              heap = kfree s₂.heap p;
            },
          ))

  -- `ext2_truncate_inode`: the inode and the state afterwards; the status is 0.
  unfoldable pub truncate_inode : Buf → (new_size : ℕ) → Fs pf → Buf × Fs pf
  unfolding free_direct
  truncate_inode inode new_size s =
      let bs = s.block_size in
      let old_blocks = (i_size inode + bs + 2 ^ 32 - 1) % 2 ^ 32 / bs in
      let new_blocks = (new_size + bs + 2 ^ 32 - 1) % 2 ^ 32 / bs in
      let stop = if ltb old_blocks 12 then old_blocks else 12 in
      let (inode₁, s₁) = free_direct (stop - new_blocks) new_blocks inode s in
      let (inode₂, s₂) =
        if ltb 12 old_blocks && not (i_block inode₁ 12 == 0)
        then truncate_indirect new_blocks inode₁ s₁
        else (inode₁, s₁) in
      (set_i_blocks (set_i_size inode₂ new_size) (new_blocks * (bs / 512)), s₂)

  -- The loop of `ext2_delete_inode` over the entries of the indirect block, which clears none.
  pub free_children : (n j : ℕ) → Buf → Fs pf → Fs pf
  free_children zero j ind s = s
  free_children (suc n) j ind s =
      let freed = free_children n (j + 1) ind (free_block pf (entry ind j) s) in
      let kept = free_children n (j + 1) ind s in if entry ind j == 0 then kept else freed

  -- The singly indirect block and its children.
  unfoldable pub free_indirect : Buf → Fs pf → Fs pf
  unfolding free_children
  free_indirect inode s =
      let (p, heap) = kmalloc s.heap s.block_size in
      let s₁ = record s { heap = heap } in
      let ind = (read_block s.dev (i_block inode 12) (memory heap p)).1 in
      let s₂ = free_children (s.block_size / 4) 0 ind s₁ in
      free_block pf (i_block inode 12) (if p == 0 then s₁ else record s₂ { heap = kfree s₂.heap p })
