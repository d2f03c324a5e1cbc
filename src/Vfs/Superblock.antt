-- ===== src/Vfs/Superblock.antt =====
-- src/fs/vfs/superblock.c
use dvivon_os.Base.Buf.{update}
use dvivon_os.Vfs.{VfsSuperblock, release, release_if, alloc, World, Kernel}
use dvivon_os.Base.{◌+◌, ◌==◌, if◌then◌else◌, ℕ, none, some}
use dvivon_os.Str.{strlen, CString}
use dvivon_os.Vfs.Inode.{inode_put}

module _ (k : Kernel) where
  -- `sizeof(superblock_t)`
  abbrev superblock_bytes : ℕ
  superblock_bytes = 32

  -- `superblock_new`
  unfoldable pub superblock_new : (dev : ℕ) → CString → World k.State → ℕ × World k.State
  superblock_new dev name w =
      let (p, w₁) = alloc k superblock_bytes w in
      let (q, w₂) = alloc k (strlen name + 1) w₁ in
      let fresh : VfsSuperblock = record {
        dev = dev;
        blocksize = 4096;
        blocksize_bits = 12;
        flags = 0;
        type_name = q;
        type_bytes = name;
        root = 0;
        fs_data = 0;
        ops = 0;
      } in
      if p == 0
      then (0, w₁)
      else if q == 0
      then (0, release k p w₂)
      else (p, record w₂ { supers = update w₂.supers p fresh })

  -- `sb->ops && sb->ops->put_superblock`, called.
  abbrev pub call_put_superblock : ℕ → World k.State → World k.State
  call_put_superblock p w =
      let table = (w.supers p).ops in
      if table == 0
      then w
      else elim (k.super_ops table).put_superblock [ none ↦ w | some f ↦ f p w ]

  -- `superblock_free`
  unfoldable pub superblock_free : ℕ → World k.State → World k.State
  superblock_free p w =
      let w₁ = call_put_superblock p w in
      let w₂ = inode_put k (w₁.supers p).root w₁ in
      let w₃ = release_if k (w₂.supers p).fs_data w₂ in
      let w₄ = release_if k (w₃.supers p).type_name w₃ in if p == 0 then w else release k p w₄
