-- ===== src/Ext2/Dir.antt =====
-- src/fs/ext2/directory.c: the records of a directory block, and finding, adding and removing entries.
pub mod Ops
pub mod Find
mod Tests
use dvivon_os.Str.{chars, memcmp, memcpy, strlen, memset, CString}
use dvivon_os.Ext2.Inode.{write_inode, read_inode, Inode}
use dvivon_os.Base.{
  leb, ◌||◌, ltb, ◌&&◌, ◌/◌, zero, ◌%◌, ◌-◌, ◌==◌, if◌then◌else◌, not, ◌^◌, Bool, none, some, suc,
  ◌+◌, Option, ℕ,
}
use dvivon_os.Ext2.Layout.{i_blocks, set_i_blocks, set_i_size}
use dvivon_os.Ext2.Entry.{
  is_same, de_name_len, set_de_inode, de_inode, dir_rec_len, is_dir, put_entry, rec_len,
  set_rec_len,
}
use dvivon_os.Ext2.Bitmap.{free_block, alloc_block}
use dvivon_os.Ext2.Map.{assign_block_num, failure, set_entry, resolve_block_num}
use dvivon_os.Ext2.State.{Fs}
use dvivon_os.Base.Buf.{Buf}
use dvivon_os.Ext2.Platform.{Platform}

-- A place for a new entry: a deleted one, or the slack behind one.
pub data Room : Type 0 where
  reuse split : ℕ → Room

module _ (name : CString) (bs : ℕ) (buf : Buf) where
  -- `de->inode != 0 && de->name_len == nlen && memcmp(de->name, name, nlen) == 0`
  abbrev pub is_named : ℕ → Bool
  is_named off =
      not (de_inode buf off == 0)
      && (de_name_len buf off == strlen name)
      && is_same (memcmp buf (off + 8) (chars name) 0 (strlen name))

  -- The while loop of `ext2_find_dir_entry` and `ext2_remove_dir_entry`: the entry before the one of
  -- that name in the block, and the offset of that one.
  pub find_entry : (fuel : ℕ) → Option ℕ → (off : ℕ) → Option (Option ℕ × ℕ)
  find_entry zero prev off = none
  find_entry (suc fuel) prev off =
      let rest = find_entry fuel (some off) (off + rec_len buf off) in
      if not (ltb off bs) || (rec_len buf off == 0)
      then none
      else if is_named off
      then some (prev, off)
      else rest

-- The while loop of `ext2_add_dir_entry`.
module _ (need bs : ℕ) (buf : Buf) where
  pub find_room : (fuel off : ℕ) → Option Room
  find_room zero off = none
  find_room (suc fuel) off =
      let rest = find_room fuel (off + rec_len buf off) in
      let slack = (rec_len buf off + 2 ^ 32 - dir_rec_len (de_name_len buf off)) % 2 ^ 32 in
      if not (ltb off bs) || (rec_len buf off == 0)
      then none
      else if (de_inode buf off == 0) && leb need (rec_len buf off)
      then some (reuse off)
      else if leb need slack
      then some (split off)
      else rest

-- What is stored for the room that was found.
unfoldable pub put_in : Room → Buf → (name : CString) → (ino type : ℕ) → Buf
put_in (reuse off) buf name ino type = put_entry buf off ino name type
put_in (split off) buf name ino type =
    let actual = dir_rec_len (de_name_len buf off) in
    let slack = (rec_len buf off + 2 ^ 32 - actual) % 2 ^ 32 in
    put_entry (set_rec_len (set_rec_len buf off actual) (off + actual) slack) (off + actual) ino
      name type

-- The block without the entry: the one before it grows, or its inode becomes 0.
unfoldable pub drop_entry : Option ℕ → (off : ℕ) → Buf → Buf
drop_entry (some prev) off buf = set_rec_len buf prev (rec_len buf prev + rec_len buf off)
drop_entry none off buf = set_de_inode buf off 0

-- The number of entries in use, as `ext2_rmdir` counts them.
pub count_entries : (bs : ℕ) → Buf → (fuel off : ℕ) → ℕ
count_entries bs buf zero off = 0
count_entries bs buf (suc fuel) off =
    let rest = count_entries bs buf fuel (off + rec_len buf off) in
    if not (ltb off bs) || (rec_len buf off == 0)
    then 0
    else if de_inode buf off == 0
    then rest
    else suc rest

-- `(size + bs - 1) / bs` in 32 bits
abbrev pub block_count : (size bs : ℕ) → ℕ
block_count size bs = (size + bs + 2 ^ 32 - 1) % 2 ^ 32 / bs

module _ (pf : Platform) where
  open pf use {read_block, write_block, kmalloc, kfree, memory}

  module _ {A : Type 0} (look : Buf → Option A) where
    -- The for loop over the blocks of a directory, n of them left from b on, with what the loop body
    -- looks for in one block: the number of the block, its bytes and the result.
    pub search_blocks : (n b : ℕ) → Buf → (inode : Buf) → Fs pf → Option (ℕ × Buf × A) × Fs pf
    search_blocks zero b buf inode s = (none, s)
    search_blocks (suc n) b buf inode s =
        let (phys, s₁) = resolve_block_num pf inode b s.block_size s in
        let read = (read_block s₁.dev phys buf).1 in
        let skip = search_blocks n (b + 1) buf inode s₁ in
        let next = search_blocks n (b + 1) read inode s₁ in
        if phys == 0
        then skip
        else elim (look read) [ some a ↦ (some (phys, read, a), s₁) | none ↦ next ]

  -- `ext2_find_dir_entry`: the pointer to the copy of the entry and its bytes, none for NULL.
  unfoldable pub find_dir_entry : Inode → CString → Fs pf → Option (ℕ × Buf) × Fs pf
  unfolding find_entry search_blocks
  find_dir_entry dir name s =
      let bs = s.block_size in
      let (p, heap) = kmalloc s.heap bs in
      if not (is_dir dir.mode)
      then (none, s)
      else if p == 0
      then (none, record s { heap = heap })
      else (let (found, s₁) =
            search_blocks (λ buf. find_entry name bs buf bs none 0) (block_count dir.size bs) 0
              (memory heap p) dir.disk_inode (record s { heap = heap }) in
          elim found [
            | none ↦ (none, record s₁ { heap = kfree s₁.heap p })
            | some (phys, buf, (prev, off)) ↦
                let total = dir_rec_len (de_name_len buf off) in
                let (q, heap₁) = kmalloc s₁.heap total in
                let copy = memcpy (memory heap₁ q) 0 buf off total in
                let s₂ : Fs pf = record s₁ { heap = kfree heap₁ p } in
                if q == 0 then (none, s₂) else (some (q, copy), s₂)
          ])

  -- `ext2_lookup`
  unfoldable pub lookup : Inode → CString → Fs pf → Option Inode × Fs pf
  lookup dir name s =
      let (found, s₁) = find_dir_entry dir name s in
      elim found [
        | none ↦ (none, s₁)
        | some (q, copy) ↦ read_inode pf (de_inode copy 0) (record s₁ { heap = kfree s₁.heap q })
      ]

  -- The end of `ext2_add_dir_entry`: a new block for the directory.
  unfoldable pub add_block : Inode → CString → (ino type p : ℕ) → Fs pf → ℕ × Inode × Fs pf
  add_block dir name ino type p s =
      let bs = s.block_size in
      let (blk, s₁) = alloc_block pf s in
      if blk == 0
      then (failure, dir, record s₁ { heap = kfree s₁.heap p })
      else (let (r, raw, s₂) =
            assign_block_num pf dir.disk_inode (block_count dir.size bs) blk bs s₁ in
          let s₃ = free_block pf blk s₂ in
          let zeroed = memset (memory s₂.heap p) 0 0 bs in
          let buf = put_entry (set_rec_len zeroed 0 bs) 0 ino name type in
          let s₄ : Fs pf = record s₂ {
            dev = (write_block s₂.dev blk buf).1;
            heap = kfree s₂.heap p;
          } in
          let size = (dir.size + bs) % 2 ^ 32 in
          let raw₁ = set_i_size raw size in
          let raw₂ = set_i_blocks raw₁ (i_blocks raw₁ + bs / 512) in
          let grown = record dir { size = size; blocks = i_blocks raw₂; disk_inode = raw₂ } in
          let (_, dir₁, s₅) = write_inode pf grown s₄ in
          if r == 0
          then (0, dir₁, s₅)
          else (failure, record dir { disk_inode = raw }, record s₃ { heap = kfree s₃.heap p }))

  -- `ext2_add_dir_entry`
  unfoldable pub add_dir_entry : Inode → CString → (ino type : ℕ) → Fs pf → ℕ × Inode × Fs pf
  unfolding find_room search_blocks
  add_dir_entry dir name ino type s =
      let bs = s.block_size in
      let need = dir_rec_len (strlen name) in
      let (p, heap) = kmalloc s.heap bs in
      if (ino == 0) || ltb 255 (strlen name)
      then (failure, dir, s)
      else if p == 0
      then (failure, dir, record s { heap = heap })
      else (let (found, s₁) =
            search_blocks (λ buf. find_room need bs buf bs 0) (block_count dir.size bs) 0
              (memory heap p) dir.disk_inode (record s { heap = heap }) in
          elim found [
            | none ↦ add_block dir name ino type p s₁
            | some (phys, buf, room) ↦
                let dev = (write_block s₁.dev phys (put_in room buf name ino type)).1 in
                (0, dir, record s₁ { dev = dev; heap = kfree s₁.heap p })
          ])

  -- `ext2_remove_dir_entry`
  unfoldable pub remove_dir_entry : Inode → CString → Fs pf → ℕ × Fs pf
  unfolding find_entry search_blocks
  remove_dir_entry dir name s =
      let bs = s.block_size in
      let (p, heap) = kmalloc s.heap bs in
      if p == 0
      then (failure, record s { heap = heap })
      else (let (found, s₁) =
            search_blocks (λ buf. find_entry name bs buf bs none 0) (block_count dir.size bs) 0
              (memory heap p) dir.disk_inode (record s { heap = heap }) in
          elim found [
            | none ↦ (failure, record s₁ { heap = kfree s₁.heap p })
            | some (phys, buf, (prev, off)) ↦
                let dev = (write_block s₁.dev phys (drop_entry prev off buf)).1 in
                (0, record s₁ { dev = dev; heap = kfree s₁.heap p })
          ])
