-- ===== src/Ext2/Bitmap.antt =====
-- The bitmaps of free blocks and inodes: `ext2_alloc_block` and `ext2_free_block` of
-- src/fs/ext2/block.c, `ext2_alloc_inode` and `ext2_free_inode` of src/fs/ext2/inode.c. The two pairs
-- are one text but for the fields that they name, so the model has one text over a `Kind`.
pub mod Bits
pub mod Store
pub mod Alloc
pub mod Outcome
pub mod Release
mod Tests
use dvivon_os.Base.{
  none, zero, ltb, some, ◌-◌, bit_or, ◌%◌, ◌*◌, ◌==◌, ◌^◌, bit_and, false, if◌then◌else◌, suc, ◌+◌,
  ◌/◌, true, ℕ, Bool,
}
use dvivon_os.Ext2.Layout.{
  s_blocks_count, bg_free_inodes_count, bg_inode_bitmap, s_free_inodes_count, s_inodes_per_group,
  set_bg_free_inodes_count, set_free_inodes_count, bg_block_bitmap, bg_free_blocks_count,
  s_blocks_per_group, s_first_data_block, s_free_blocks_count, set_bg_free_blocks_count,
  set_free_blocks_count,
}
use dvivon_os.Base.Search.{find_from}
use dvivon_os.Ext2.State.{flush_group_desc, flush_superblock, Fs}
use dvivon_os.Base.Buf.{update, Buf}
use dvivon_os.Ext2.Platform.{Platform}

pub data Kind : Type 0 where
  blocks inodes : Kind

abbrev pub same_kind : Kind → Kind → Bool
same_kind blocks blocks = true
same_kind inodes inodes = true
same_kind _ _ = false

-- `bg_block_bitmap` or `bg_inode_bitmap`, and so on.
abbrev pub bitmap_block : Kind → Buf → ℕ → ℕ
bitmap_block blocks gd g = bg_block_bitmap gd g
bitmap_block inodes gd g = bg_inode_bitmap gd g

abbrev pub group_free : Kind → Buf → ℕ → ℕ
group_free blocks gd g = bg_free_blocks_count gd g
group_free inodes gd g = bg_free_inodes_count gd g

abbrev pub set_group_free : Kind → Buf → ℕ → ℕ → Buf
set_group_free blocks gd g v = set_bg_free_blocks_count gd g v
set_group_free inodes gd g v = set_bg_free_inodes_count gd g v

abbrev pub total_free : Kind → Buf → ℕ
total_free blocks sb = s_free_blocks_count sb
total_free inodes sb = s_free_inodes_count sb

abbrev pub set_total_free : Kind → Buf → ℕ → Buf
set_total_free blocks sb v = set_free_blocks_count sb v
set_total_free inodes sb v = set_free_inodes_count sb v

abbrev pub per_group : Kind → Buf → ℕ
per_group blocks sb = s_blocks_per_group sb
per_group inodes sb = s_inodes_per_group sb

-- The number that stands for bit i of group g.
abbrev pub number : Kind → Buf → (g i : ℕ) → ℕ
number blocks sb g i = (s_first_data_block sb + g * s_blocks_per_group sb + i) % 2 ^ 32
number inodes sb g i = (g * s_inodes_per_group sb + i + 1) % 2 ^ 32

-- `block - s_first_data_block` or `ino - 1`, in 32 bits.
abbrev pub relative : Kind → Buf → ℕ → ℕ
relative blocks sb n = (n + 2 ^ 32 - s_first_data_block sb) % 2 ^ 32
relative inodes sb n = (n + 2 ^ 32 - 1) % 2 ^ 32

-- `!(bitmap[i / 8] & (1 << (i % 8)))`
abbrev pub is_free : Buf → ℕ → Bool
is_free m i = bit_and (m (i / 8)) (2 ^ (i % 8)) == 0

-- `bitmap[i / 8] |= (1 << (i % 8))` and `bitmap[i / 8] &= ~(1 << (i % 8))`, stored into a byte.
unfoldable pub mark_used : Buf → ℕ → Buf
mark_used m i = update m (i / 8) (bit_or (m (i / 8)) (2 ^ (i % 8)) % 256)

unfoldable pub mark_free : Buf → ℕ → Buf
mark_free m i = update m (i / 8) (bit_and (m (i / 8)) (2 ^ 32 - 1 - 2 ^ (i % 8)) % 256)

module _ (pf : Platform) where
  open pf use {read_block, write_block, kmalloc, kfree, memory}

  -- How many bits of a group's bitmap count: the last group may have fewer blocks.
  abbrev pub group_bits : Kind → Fs pf → ℕ → ℕ
  group_bits blocks s g =
      let bits = s_blocks_per_group s.sb in
      let used = (g * s_blocks_per_group s.sb + s_first_data_block s.sb) % 2 ^ 32 in
      let rem = (s_blocks_count s.sb + 2 ^ 32 - used) % 2 ^ 32 in
      if g == s.groups_count - 1 then (if ltb rem bits then rem else bits) else bits
  group_bits inodes s g = s_inodes_per_group s.sb

  -- The state with group g's bitmap stored, the counters set, and the scratch block freed; then the
  -- group's descriptor and the superblock written back.
  unfoldable pub store : Kind → (g : ℕ) → (bitmap : Buf) → (in_group total p : ℕ) → Fs pf → Fs pf
  store k g bitmap in_group total p s =
      let s₁ : Fs pf = record s {
        dev = (write_block s.dev (bitmap_block k s.group_desc g) bitmap).1;
        heap = kfree s.heap p;
        group_desc = set_group_free k s.group_desc g in_group;
        sb = set_total_free k s.sb total;
      } in
      (flush_superblock pf (flush_group_desc pf g s₁).1).1

  -- What follows a free bit i of group g.
  unfoldable pub take_bit : Kind → (p : ℕ) → Buf → (g i : ℕ) → Fs pf → ℕ × Fs pf
  take_bit k p bitmap g i s =
      let s' =
        store k g (mark_used bitmap i) (group_free k s.group_desc g + 2 ^ 16 - 1)
          (total_free k s.sb + 2 ^ 32 - 1) p s in
      (number k s'.sb g i, s')

  -- The loop over the groups from g on, n of them left.
  pub alloc_from : Kind → (n g : ℕ) → (p : ℕ) → Buf → Fs pf → ℕ × Fs pf
  alloc_from k zero g p bitmap s = (0, record s { heap = kfree s.heap p })
  alloc_from k (suc n) g p bitmap s =
      let read = (read_block s.dev (bitmap_block k s.group_desc g) bitmap).1 in
      let skip = alloc_from k n (g + 1) p bitmap s in
      let next = alloc_from k n (g + 1) p read s in
      if group_free k s.group_desc g == 0
      then skip
      else elim (find_from (is_free read) 0 (group_bits k s g)) [
        | some i ↦ take_bit k p read g i s
        | none ↦ next
      ]

  unfoldable pub alloc : Kind → Fs pf → ℕ × Fs pf
  unfolding alloc_from
  alloc k s =
      if total_free k s.sb == 0
      then (0, s)
      else (let (p, heap) = kmalloc s.heap s.block_size in
          if p == 0
          then (0, record s { heap = heap })
          else alloc_from k s.groups_count 0 p (memory heap p) (record s { heap = heap }))

  unfoldable pub free : Kind → ℕ → Fs pf → Fs pf
  free k n s =
      let rel = relative k s.sb n in
      let group = rel / per_group k s.sb in
      let index = rel % per_group k s.sb in
      let (p, heap) = kmalloc s.heap s.block_size in
      if p == 0
      then record s { heap = heap }
      else (let bitmap = (read_block s.dev (bitmap_block k s.group_desc group) (memory heap p)).1 in
          store k group (mark_free bitmap index) (group_free k s.group_desc group + 1)
            (total_free k s.sb + 1) p (record s { heap = heap }))

  -- `ext2_alloc_block`, `ext2_free_block`, `ext2_alloc_inode`, `ext2_free_inode`
  abbrev pub alloc_block : Fs pf → ℕ × Fs pf
  alloc_block s = alloc blocks s

  abbrev pub free_block : ℕ → Fs pf → Fs pf
  free_block n s = free blocks n s

  abbrev pub alloc_inode : Fs pf → ℕ × Fs pf
  alloc_inode s = alloc inodes s

  abbrev pub free_inode : ℕ → Fs pf → Fs pf
  free_inode n s = free inodes n s
