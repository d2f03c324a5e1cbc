-- ===== src/Ext2/Map.antt =====
-- The block map of an inode, src/fs/ext2/block.c: the pointers `i_block`, the indirect blocks, and
-- truncation. The C functions take the device and the block size apart from the superblock; all
-- callers pass those of the file system, so the device is that of the state.
-- The status -1 is 2 ^ 32 - 1.
pub mod Assign
pub mod Double
pub mod Heap
pub mod RoundTrip
mod Tests
use dvivon_os.Str.{memset}
use dvivon_os.Ext2.Layout.{i_block, set_i_block}
use dvivon_os.Ext2.Bitmap.{free_block, alloc_block}
use dvivon_os.Base.{◌%◌, ltb, ◌*◌, ◌-◌, ◌/◌, ◌==◌, if◌then◌else◌, ◌^◌, ℕ}
use dvivon_os.Ext2.State.{gd_block, Fs}
use dvivon_os.Base.Buf.{get32, put32, Buf}
use dvivon_os.Ext2.Platform.{Platform}

module _ (inode : Buf) where
  -- `ext2_get_block_ptr`, on an inode that is not NULL
  abbrev pub get_block_ptr : ℕ → ℕ
  get_block_ptr k = if ltb 14 k then 0 else i_block inode k

  -- `ext2_set_block_ptr`
  abbrev pub set_block_ptr : ℕ → ℕ → Buf
  set_block_ptr k v = if ltb 14 k then inode else set_i_block inode k v

-- `ind[i]` of an indirect block
abbrev pub entry : Buf → ℕ → ℕ
entry ind i = get32 ind (4 * i)

abbrev pub set_entry : Buf → ℕ → ℕ → Buf
set_entry ind i v = put32 ind (4 * i) v

abbrev pub failure : ℕ
failure = 2 ^ 32 - 1

module _ (pf : Platform) where
  open pf use {Dev, read_block, write_block, kmalloc, kfree, memory}

  -- `ext2_read_indirect_block` and `ext2_write_indirect_block`, with a buffer that is not NULL
  abbrev pub read_indirect_block : Dev → ℕ → Buf → ℕ × Buf
  read_indirect_block dev b buf = if b == 0 then (failure, buf) else read_block dev b buf

  abbrev pub write_indirect_block : Dev → ℕ → Buf → ℕ × Dev
  write_indirect_block dev b buf = if b == 0 then (failure, dev) else write_block dev b buf

  -- `ext2_alloc_indirect_block`
  unfoldable pub alloc_indirect_block : Fs pf → ℕ × Fs pf
  alloc_indirect_block s =
      let (b, s₁) = alloc_block pf s in
      if b == 0
      then (0, s₁)
      else (let (p, heap) = kmalloc s₁.heap s₁.block_size in
          if p == 0
          then (0, free_block pf b (record s₁ { heap = heap }))
          else (let zero_block = memset (memory heap p) 0 0 s₁.block_size in
              let dev = (write_block s₁.dev b zero_block).1 in
              (b, record s₁ { dev = dev; heap = kfree heap p })))

  -- The three branches of `ext2_resolve_block_num` that read indirect blocks.
  unfoldable pub resolve_single : Buf → ℕ → (bs : ℕ) → Fs pf → ℕ × Fs pf
  resolve_single inode l bs s =
      if i_block inode 12 == 0
      then (0, s)
      else (let (p, heap) = kmalloc s.heap bs in
          if p == 0
          then (0, record s { heap = heap })
          else (let ind = (read_block s.dev (i_block inode 12) (memory heap p)).1 in
              (entry ind l, record s { heap = kfree heap p })))

  unfoldable pub resolve_double : Buf → ℕ → (bs : ℕ) → Fs pf → ℕ × Fs pf
  resolve_double inode l bs s =
      let ptrs = bs / 4 in
      if i_block inode 13 == 0
      then (0, s)
      else (let (p, heap) = kmalloc s.heap bs in
          if p == 0
          then (0, record s { heap = heap })
          else (let ind = (read_block s.dev (i_block inode 13) (memory heap p)).1 in
              let singly = entry ind (l / ptrs) in
              let s' = record s { heap = kfree heap p } in
              if singly == 0
              then (0, s')
              else (entry (read_block s.dev singly ind).1 (l % ptrs), s')))

  unfoldable pub resolve_triple : Buf → ℕ → (bs : ℕ) → Fs pf → ℕ × Fs pf
  resolve_triple inode l bs s =
      let ptrs = bs / 4 in
      let square = ptrs * ptrs % 2 ^ 32 in
      if i_block inode 14 == 0
      then (0, s)
      else (let (p, heap) = kmalloc s.heap bs in
          if p == 0
          then (0, record s { heap = heap })
          else (let ind = (read_block s.dev (i_block inode 14) (memory heap p)).1 in
              let double = entry ind (l / square) in
              let rem = l % square in
              let s' = record s { heap = kfree heap p } in
              if double == 0
              then (0, s')
              else (let ind₁ = (read_block s.dev double ind).1 in
                  let singly = entry ind₁ (rem / ptrs) in
                  if singly == 0
                  then (0, s')
                  else (entry (read_block s.dev singly ind₁).1 (rem % ptrs), s'))))

  -- `ext2_resolve_block_num`
  unfoldable pub resolve_block_num : (inode : Buf) → (logical bs : ℕ) → Fs pf → ℕ × Fs pf
  resolve_block_num inode logical bs s =
      let ptrs = bs / 4 in
      let square = ptrs * ptrs % 2 ^ 32 in
      if ltb logical 12
      then (i_block inode logical, s)
      else if ltb (logical - 12) ptrs
      then resolve_single inode (logical - 12) bs s
      else if ltb (logical - 12 - ptrs) square
      then resolve_double inode (logical - 12 - ptrs) bs s
      else resolve_triple inode (logical - 12 - ptrs - square) bs s

  -- `if (inode->i_block[k] == 0) inode->i_block[k] = ext2_alloc_indirect_block(sb);`
  unfoldable pub ensure_pointer : (k : ℕ) → Buf → Fs pf → Buf × Fs pf
  ensure_pointer k inode s =
      if i_block inode k == 0
      then (let (b, s') = alloc_indirect_block s in (set_i_block inode k b, s'))
      else (inode, s)

  unfoldable pub assign_single : Buf → (l phys bs : ℕ) → Fs pf → ℕ × Buf × Fs pf
  assign_single inode l phys bs s =
      let (inode₁, s₁) = ensure_pointer 12 inode s in
      if i_block inode₁ 12 == 0
      then (failure, inode₁, s₁)
      else (let (p, heap) = kmalloc s₁.heap bs in
          if p == 0
          then (failure, inode₁, record s₁ { heap = heap })
          else (let ind = (read_block s₁.dev (i_block inode₁ 12) (memory heap p)).1 in
              let dev = (write_block s₁.dev (i_block inode₁ 12) (set_entry ind l phys)).1 in
              (0, inode₁, record s₁ { dev = dev; heap = kfree heap p })))

  -- `if (ind[i] == 0) { ind[i] = ext2_alloc_indirect_block(sb); ... ext2_write_block(...); }`
  unfoldable pub ensure_entry : (block i : ℕ) → Buf → Fs pf → Buf × Fs pf
  ensure_entry block i ind s =
      if entry ind i == 0
      then (let (b, s₁) = alloc_indirect_block s in
          let ind₁ = set_entry ind i b in
          if entry ind₁ i == 0
          then (ind₁, s₁)
          else (ind₁, record s₁ { dev = (write_block s₁.dev block ind₁).1 }))
      else (ind, s)

  unfoldable pub assign_double : Buf → (l phys bs : ℕ) → Fs pf → ℕ × Buf × Fs pf
  assign_double inode l phys bs s =
      let ptrs = bs / 4 in
      let (inode₁, s₁) = ensure_pointer 13 inode s in
      if i_block inode₁ 13 == 0
      then (failure, inode₁, s₁)
      else (let (p, heap) = kmalloc s₁.heap bs in
          if p == 0
          then (failure, inode₁, record s₁ { heap = heap })
          else (let ind = (read_block s₁.dev (i_block inode₁ 13) (memory heap p)).1 in
              let (ind₁, s₂) =
                ensure_entry (i_block inode₁ 13) (l / ptrs) ind (record s₁ { heap = heap }) in
              let singly = entry ind₁ (l / ptrs) in
              if singly == 0
              then (failure, inode₁, record s₂ { heap = kfree s₂.heap p })
              else (let ind₂ = set_entry (read_block s₂.dev singly ind₁).1 (l % ptrs) phys in
                  let dev = (write_block s₂.dev singly ind₂).1 in
                  (0, inode₁, record s₂ { dev = dev; heap = kfree s₂.heap p }))))

  -- `ext2_assign_block_num`
  unfoldable pub assign_block_num : (inode : Buf) → (logical phys bs : ℕ) → Fs pf → ℕ × Buf × Fs pf
  assign_block_num inode logical phys bs s =
      let ptrs = bs / 4 in
      if ltb logical 12
      then (0, set_i_block inode logical phys, s)
      else if ltb (logical - 12) ptrs
      then assign_single inode (logical - 12) phys bs s
      else if ltb (logical - 12 - ptrs) (ptrs * ptrs % 2 ^ 32)
      then assign_double inode (logical - 12 - ptrs) phys bs s
      else (failure, inode, s)
