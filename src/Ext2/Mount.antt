-- ===== src/Ext2/Mount.antt =====
-- src/fs/ext2/superblock.c: validating and reading the tables of a volume, `ext2_fill_super`, and what
-- the VFS calls on a mounted superblock.
pub mod Validate
mod Tests
use dvivon_os.Ext2.Layout.{
  inode_size, s_inodes_per_group, root_ino, s_blocks_per_group, s_free_inodes_count, s_rev_level,
  s_first_data_block, s_inodes_count, magic, s_free_blocks_count, s_log_block_size, group_desc_size,
  s_magic, superblock_size, s_blocks_count,
}
use dvivon_os.Base.{
  [], some, zero, ◌||◌, none, ◌%◌, ◌-◌, ◌/◌, ltb, ◌+◌, ◌^◌, ◌∷◌, List, Option, not, suc, ◌*◌, ◌==◌,
  if◌then◌else◌, ℕ,
}
use dvivon_os.Str.{memcpy}
use dvivon_os.Ext2.Inode.{read_inode, Inode}
use dvivon_os.Ext2.State.{flush_group_desc, flush_superblock, Fs}
use dvivon_os.Ext2.Map.{failure}
use dvivon_os.Base.Buf.{Buf}
use dvivon_os.Ext2.Platform.{Platform}

-- `1024U << s_log_block_size`, where the shift of the i686 takes its count modulo 32.
abbrev pub volume_block_size : Buf → ℕ
volume_block_size sb = 1024 * 2 ^ (s_log_block_size sb % 32) % 2 ^ 32

-- `ext2_validate_superblock`
unfoldable pub validate_superblock : Buf → ℕ
validate_superblock sb =
    if not (s_magic sb == magic)
    then failure
    else if ltb (volume_block_size sb) 1024 || ltb 4096 (volume_block_size sb)
    then failure
    else if ltb 1 (s_rev_level sb)
    then failure
    else 0

-- `ext2_get_block_group`
unfoldable pub get_block_group : (sb : Buf) → (ino block : ℕ) → ℕ
get_block_group sb ino block =
    if ino == 0
    then (block + 2 ^ 32 - s_first_data_block sb) % 2 ^ 32 / s_blocks_per_group sb
    else (ino - 1) / s_inodes_per_group sb

-- `groups_count` of `ext2_fill_super`
abbrev pub volume_groups : Buf → ℕ
volume_groups sb =
    let blocks = (s_blocks_count sb + 2 ^ 32 - s_first_data_block sb) % 2 ^ 32 in
    (blocks + s_blocks_per_group sb + 2 ^ 32 - 1) % 2 ^ 32 / s_blocks_per_group sb

module _ (pf : Platform) where
  open pf use {Dev, Heap, read_block, kmalloc, kfree, memory}

  -- The while loop of `ext2_read_group_desc`. Every round reads at least one descriptor, so that fuel
  -- `count` is enough.
  pub read_descs : (fuel : ℕ) → (count per_block read block : ℕ) → (buf groups : Buf) → Dev → Buf
  read_descs zero count per_block read block buf groups dev = groups
  read_descs (suc fuel) count per_block read block buf groups dev =
      let buf' = (read_block dev block buf).1 in
      let n = if ltb per_block (count - read) then per_block else count - read in
      let groups' = memcpy groups (32 * read) buf' 0 (n * group_desc_size) in
      let next =
        read_descs fuel count per_block (read + n) ((block + 1) % 2 ^ 32) buf' groups' dev in
      if ltb read count then next else groups

  -- `ext2_read_group_desc`: the status, `groups` afterwards, and the heap.
  unfoldable pub read_group_desc : (sb groups : Buf) → (count : ℕ) → Dev → Heap → ℕ × Buf × Heap
  unfolding read_descs
  read_group_desc sb groups count dev h =
      let block_size = volume_block_size sb in
      let (p, heap) = kmalloc h block_size in
      if count == 0
      then (failure, groups, h)
      else if p == 0
      then (failure, groups, heap)
      else (let groups' =
            read_descs count count (block_size / group_desc_size) 0
              ((s_first_data_block sb + 1) % 2 ^ 32) (memory heap p) groups dev in
          (0, groups', kfree heap p))

  -- `ext2_sync`: the superblock, then the descriptors from group g on, n of them left.
  pub flush_groups : (n g : ℕ) → Fs pf → Fs pf
  flush_groups zero g s = s
  flush_groups (suc n) g s = flush_groups n (g + 1) (flush_group_desc pf g s).1

  unfoldable pub sync : Fs pf → ℕ × Fs pf
  unfolding flush_groups
  sync s = (0, flush_groups s.groups_count 0 (flush_superblock pf s).1)

  -- `ext2_statfs`
  unfoldable pub statfs : Fs pf → List ℕ
  statfs s =
      s_blocks_count s.sb
      ∷ s_free_blocks_count s.sb
      ∷ s_inodes_count s.sb
      ∷ s_free_inodes_count s.sb
      ∷ s.block_size
      ∷ s_blocks_per_group s.sb
      ∷ []

  -- The VFS superblock that `ext2_fill_super` completes.
  pub record Volume : Type 0 where
    pub fs : Fs pf
    pub fs_pointer : ℕ
    pub sb_pointer : ℕ
    pub group_desc_pointer : ℕ
    pub inodes_per_block : ℕ
    pub itable_blocks : ℕ
    pub blocksize : ℕ
    pub blocksize_bits : ℕ
    pub root : Inode

  -- `ext2_put_superblock`: the heap afterwards.
  unfoldable pub put_superblock : Volume → Heap → Heap
  put_superblock v h =
      let h₁ = if v.group_desc_pointer == 0 then h else kfree h v.group_desc_pointer in
      if v.sb_pointer == 0 then h₁ else kfree h₁ v.sb_pointer

  -- `read_blocks` of the device, and the assignment to its `block_size`.
  module _ (read_blocks : Dev → (start count : ℕ) → Buf → ℕ × Buf)
      (set_block_size : Dev → ℕ → Dev) where
    -- `ext2_read_superblock`
    abbrev pub read_superblock : Dev → Buf → ℕ × Buf
    read_superblock dev sb = read_blocks dev 2 2 sb

    -- The part of `ext2_fill_super` behind the validation: q and r are the pointers to the private
    -- data and to the superblock.
    unfoldable pub fill_tables : (sb : Buf) → (q r : ℕ) → Dev → Heap → Option Volume × Dev × Heap
    fill_tables sb q r d h =
        let bs = volume_block_size sb in
        let groups_count = volume_groups sb in
        let dev = set_block_size d bs in
        let (g, h₁) = kmalloc h (groups_count * group_desc_size % 2 ^ 32) in
        let (status, groups, h₂) = read_group_desc sb (memory h₁ g) groups_count dev h₁ in
        let s : Fs pf = record {
          dev = dev;
          heap = h₂;
          sb = sb;
          group_desc = groups;
          groups_count = groups_count;
          block_size = bs;
        } in
        let (root, s₁) = read_inode pf root_ino s in
        if g == 0
        then (none, dev, kfree (kfree h₁ r) q)
        else if not (status == 0)
        then (none, dev, kfree (kfree (kfree h₂ g) r) q)
        else elim root [
          | none ↦ (none, dev, kfree (kfree (kfree s₁.heap g) r) q)
          | some i ↦ (
            some (record {
              fs = s₁;
              fs_pointer = q;
              sb_pointer = r;
              group_desc_pointer = g;
              inodes_per_block = bs / inode_size sb;
              itable_blocks =
                  (s_inodes_per_group sb * inode_size sb + bs + 2 ^ 32 - 1) % 2 ^ 32 / bs;
              blocksize = bs;
              blocksize_bits = (10 + s_log_block_size sb) % 2 ^ 32;
              root = i;
            }),
            s₁.dev,
            s₁.heap,
          )
        ]

    -- `ext2_fill_super`
    unfoldable pub fill_super : Dev → Heap → Option Volume × Dev × Heap
    fill_super d h =
        let (q, h₁) = kmalloc h 28 in
        let (r, h₂) = kmalloc h₁ superblock_size in
        let (status, sb) = read_superblock d (memory h₂ r) in
        if q == 0
        then (none, d, h₁)
        else if r == 0
        then (none, d, kfree h₂ q)
        else if not (status == 0) || not (validate_superblock sb == 0)
        then (none, d, kfree (kfree h₂ r) q)
        else fill_tables sb q r d h₂
