-- ===== src/Ext2/Super.antt =====
-- Writing back the superblock and the group descriptors: what it leaves alone.
use dvivon_os.Ext2.Layout.{group_desc_size, superblock_size}
use dvivon_os.Base.{◌*◌, ◌%◌, ◌==◌, ◌≢◌, if◌then◌else◌, ◌<◌, arith, ℕ, ◌≡◌}
use dvivon_os.Ext2.State.{gd_per_block, gd_block, Fs, flush_group_desc, flush_superblock}
use dvivon_os.Base.Buf.{Buf}
use dvivon_os.Str.{memcpy}
use dvivon_os.Ext2.Platform.{Reliable, Platform}

-- The block that holds the superblock.
abbrev pub sb_block : {pf : Platform} → Fs pf → ℕ
sb_block s = if s.block_size == 1024 then 1 else 0

module _ (pf : Platform) where
  -- Two states with the same tables in memory.
  pub record SameTables (s s' : Fs pf) : Type 0 where
    pub sb : s'.sb ≡ s.sb
    pub group_desc : s'.group_desc ≡ s.group_desc
    pub groups_count : s'.groups_count ≡ s.groups_count
    pub block_size : s'.block_size ≡ s.block_size

  pub flush_superblock-SameTables : (s : Fs pf) → SameTables s (flush_superblock pf s).1
  unfolding flush_superblock
  flush_superblock-SameTables s = ground arith

  pub flush_group_desc-SameTables : (g : ℕ) (s : Fs pf) → SameTables s (flush_group_desc pf g s).1
  unfolding flush_group_desc
  flush_group_desc-SameTables g s = ground arith

  module _ (bs : ℕ) (ok : Reliable pf bs) where
    pub write_frame :
        (d : pf.Dev) (b : ℕ) (buf : Buf) (c i : ℕ)
        → i < bs
        → c ≢ b
        → ok.content (pf.write_block d b buf).1 c i ≡ ok.content d c i
    write_frame d b buf c i lt ne = ground (arith, ok.write_bytes d b buf c i)

    -- Only the superblock's block changes.
    pub flush_superblock_frame :
        (s : Fs pf) (c i : ℕ)
        → i < bs
        → c ≢ sb_block s
        → ok.content (flush_superblock pf s).1.dev c i ≡ ok.content s.dev c i
    unfolding flush_superblock
    flush_superblock_frame s c i lt ne =
        let (p, heap) = pf.kmalloc s.heap s.block_size in
        let buf = (pf.read_block s.dev 0 (pf.memory heap p)).1 in
        ground (
          arith,
          write_frame s.dev 1 s.sb c i,
          write_frame s.dev 0 (memcpy buf 1024 s.sb 0 superblock_size) c i,
        )

    -- Only the block of the group's descriptor changes.
    pub flush_group_desc_frame :
        (g : ℕ) (s : Fs pf) (c i : ℕ)
        → i < bs
        → c ≢ gd_block pf s g
        → ok.content (flush_group_desc pf g s).1.dev c i ≡ ok.content s.dev c i
    unfolding flush_group_desc
    flush_group_desc_frame g s c i lt ne =
        let (p, heap) = pf.kmalloc s.heap s.block_size in
        let b = gd_block pf s g in
        let buf = (pf.read_block s.dev b (pf.memory heap p)).1 in
        let off = g % gd_per_block pf s * group_desc_size in
        ground
          (arith, write_frame s.dev b (memcpy buf off s.group_desc (32 * g) group_desc_size) c i)
