-- ===== src/Vfs/Inode.antt =====
-- src/fs/vfs/inode.c
pub mod Count
use dvivon_os.Vfs.{release_if, release, VfsInode, alloc, World, Kernel}
use dvivon_os.Base.{◌%◌, ◌-◌, ◌==◌, ◌^◌, if◌then◌else◌, ◌+◌, ℕ, none, some}
use dvivon_os.Base.Buf.{update}

module _ (k : Kernel) where
  -- `sizeof(inode_t)`
  abbrev inode_bytes : ℕ
  inode_bytes = 64

  -- `inode_new`: the pointer, 0 when there is no memory.
  unfoldable pub inode_new : (sb ino : ℕ) → World k.State → ℕ × World k.State
  inode_new sb ino w =
      let (p, w₁) = alloc k inode_bytes w in
      let fresh : VfsInode = record {
        ino = ino;
        sb = sb;
        mode = 0;
        size = 0;
        uid = 0;
        gid = 0;
        nlink = 0;
        atime = 0;
        mtime = 0;
        ctime = 0;
        blksize = (w₁.supers sb).blocksize;
        blocks = 0;
        flags = 0;
        ref_count = 1;
        fs_data = 0;
        f_ops = 0;
      } in
      if p == 0 then (0, w₁) else (p, record w₁ { inodes = update w₁.inodes p fresh })

  -- `inode->ref_count = n`
  abbrev pub set_ref_count : ℕ → ℕ → World k.State → World k.State
  set_ref_count p n w = record w {
    inodes = update w.inodes p (record (w.inodes p) { ref_count = n });
  }

  -- `inode_get`
  unfoldable pub inode_get : ℕ → World k.State → World k.State
  inode_get p w = if p == 0 then w else set_ref_count p (((w.inodes p).ref_count + 1) % 2 ^ 32) w

  -- `inode->f_ops && inode->f_ops->release`, called.
  abbrev pub call_release : ℕ → World k.State → World k.State
  call_release p w =
      let table = (w.inodes p).f_ops in
      if table == 0 then w else elim (k.file_ops table).release [ none ↦ w | some f ↦ f p w ]

  -- `inode_free`
  unfoldable pub inode_free : ℕ → World k.State → World k.State
  inode_free p w =
      let w₁ = call_release p w in
      if p == 0 then w else release k p (release_if k (w₁.inodes p).fs_data w₁)

  -- `inode_put`
  unfoldable pub inode_put : ℕ → World k.State → World k.State
  inode_put p w =
      let left = ((w.inodes p).ref_count + 2 ^ 32 - 1) % 2 ^ 32 in
      let w₁ = set_ref_count p left w in
      if p == 0 then w else if left == 0 then inode_free p w₁ else w₁
