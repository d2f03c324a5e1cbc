-- ===== src/Vfs/Mount/Callbacks.antt =====
-- What the functions of the file systems leave alone in src/fs/vfs/mount.c: the mounts.
use dvivon_os.Base.{
  ◌%◌, ◌-◌, ◌^◌, ◌+◌, ◌∙◌, refl, Option-cases, inr, inl, ◌==◌, Bool-cases, ◌≡◌, ℕ, some,
}
use dvivon_os.Vfs.Mount.{mount_alloc, drop_superblock, call_sync}
use dvivon_os.Vfs.{alloc, release, release_if, Kernel, World}
use dvivon_os.Vfs.Inode.{set_ref_count, inode_free, call_release, inode_put}
use dvivon_os.Vfs.Superblock.{superblock_free, call_put_superblock}

-- Two worlds with the same mounts.
pub record SameMounts (S : Type 0) (w w' : World S) : Type 0 where
  pub list_same : w'.mount_list ≡ w.mount_list
  pub root_same : w'.root_mount ≡ w.root_mount

-- The functions behind the tables do not mount or unmount anything.
pub record KeepsMounts (k : Kernel) : Type 0 where
  pub mounting :
      (fs dev : ℕ) (w : World k.State) → SameMounts k.State w ((k.fs_types fs).mount dev w).1
  pub syncing :
      (t sb : ℕ) (f : ℕ → World k.State → ℕ × World k.State) (w : World k.State)
      → (k.super_ops t).sync ≡ some f
      → SameMounts k.State w (f sb w).1
  pub putting :
      (t sb : ℕ) (f : ℕ → World k.State → World k.State) (w : World k.State)
      → (k.super_ops t).put_superblock ≡ some f
      → SameMounts k.State w (f sb w)
  pub releasing :
      (t p : ℕ) (f : ℕ → World k.State → World k.State) (w : World k.State)
      → (k.file_ops t).release ≡ some f
      → SameMounts k.State w (f p w)

module _ {S : Type 0} {a b : World S} where
  Same-trans : {c : World S} → SameMounts S a b → SameMounts S b c → SameMounts S a c
  Same-trans e f = record {
    list_same = f.list_same ∙ e.list_same;
    root_same = f.root_same ∙ e.root_same;
  }

pub release-Same : (k : Kernel) (p : ℕ) (w : World k.State) → SameMounts k.State w (release k p w)
release-Same k p w = record { list_same = refl; root_same = refl }

counted-Same :
    (k : Kernel) (p n : ℕ) (w : World k.State) → SameMounts k.State w (set_ref_count k p n w)
counted-Same k p n w = record { list_same = refl; root_same = refl }

release_if-Same : (k : Kernel) (p : ℕ) (w : World k.State) → SameMounts k.State w (release_if k p w)
release_if-Same k p w = elim (Bool-cases (p == 0)) [
  | inl t ↦ rw t record { list_same = refl; root_same = refl }
  | inr f ↦ rw f record { list_same = refl; root_same = refl }
]

module _ (k : Kernel) (keeps : KeepsMounts k) where
  call_release-Same : (p : ℕ) (w : World k.State) → SameMounts k.State w (call_release k p w)
  call_release-Same p w = elim (Bool-cases ((w.inodes p).f_ops == 0)) [
    | inl t ↦ rw t record { list_same = refl; root_same = refl }
    | inr f ↦ elim (Option-cases (k.file_ops (w.inodes p).f_ops).release) [
      | inl e ↦ rw (f, e) record { list_same = refl; root_same = refl }
      | inr (g, e) ↦ rw (f, e) (keeps.releasing _ p g w e)
    ]
  ]

  inode_free-Same : (p : ℕ) (w : World k.State) → SameMounts k.State w (inode_free k p w)
  unfolding inode_free
  inode_free-Same p w =
      let w₁ = call_release k p w in
      let w₂ = release_if k (w₁.inodes p).fs_data w₁ in
      elim (Bool-cases (p == 0)) [
        | inl t ↦ rw t record { list_same = refl; root_same = refl }
        | inr f ↦ rw f (
            Same-trans (call_release-Same p w)
              (Same-trans (release_if-Same k (w₁.inodes p).fs_data w₁) (release-Same k p w₂)))
      ]

  inode_put-Same : (p : ℕ) (w : World k.State) → SameMounts k.State w (inode_put k p w)
  unfolding inode_put
  inode_put-Same p w = elim (Bool-cases (p == 0)) [
    | inl t ↦ rw t record { list_same = refl; root_same = refl }
    | inr f ↦ elim (Bool-cases (left == 0)) [
      | inl t ↦
          rw (f, t)
            (Same-trans (counted-Same k p left w) (inode_free-Same p (set_ref_count k p left w)))
      | inr g ↦ rw (f, g) record { list_same = refl; root_same = refl }
    ]
  ]
    where
      left : ℕ
      left = ((w.inodes p).ref_count + 2 ^ 32 - 1) % 2 ^ 32

  call_put_superblock-Same :
      (p : ℕ) (w : World k.State) → SameMounts k.State w (call_put_superblock k p w)
  call_put_superblock-Same p w = elim (Bool-cases ((w.supers p).ops == 0)) [
    | inl t ↦ rw t record { list_same = refl; root_same = refl }
    | inr f ↦ elim (Option-cases (k.super_ops (w.supers p).ops).put_superblock) [
      | inl e ↦ rw (f, e) record { list_same = refl; root_same = refl }
      | inr (g, e) ↦ rw (f, e) (keeps.putting _ p g w e)
    ]
  ]

  call_sync-Same : (p : ℕ) (w : World k.State) → SameMounts k.State w (call_sync k p w)
  call_sync-Same p w = elim (Bool-cases ((w.supers p).ops == 0)) [
    | inl t ↦ rw t record { list_same = refl; root_same = refl }
    | inr f ↦ elim (Option-cases (k.super_ops (w.supers p).ops).sync) [
      | inl e ↦ rw (f, e) record { list_same = refl; root_same = refl }
      | inr (g, e) ↦ rw (f, e) (keeps.syncing _ p g w e)
    ]
  ]

  pub superblock_free-Same :
      (p : ℕ) (w : World k.State) → SameMounts k.State w (superblock_free k p w)
  unfolding superblock_free
  superblock_free-Same p w =
      let w₁ = call_put_superblock k p w in
      let w₂ = inode_put k (w₁.supers p).root w₁ in
      let w₃ = release_if k (w₂.supers p).fs_data w₂ in
      let w₄ = release_if k (w₃.supers p).type_name w₃ in
      elim (Bool-cases (p == 0)) [
        | inl t ↦ rw t record { list_same = refl; root_same = refl }
        | inr f ↦ rw f (
            Same-trans (call_put_superblock-Same p w) (
              Same-trans (inode_put-Same (w₁.supers p).root w₁) (
                Same-trans (release_if-Same k (w₂.supers p).fs_data w₂) (
                  Same-trans (release_if-Same k (w₃.supers p).type_name w₃)
                    (release-Same k p w₄)))))
      ]

  pub drop_superblock-Same :
      (mnt : ℕ) (w : World k.State) → SameMounts k.State w (drop_superblock k mnt w)
  unfolding drop_superblock
  drop_superblock-Same mnt w =
      let sb = (w.mounts mnt).sb in
      elim (Bool-cases (sb == 0)) [
        | inl t ↦ rw t record { list_same = refl; root_same = refl }
        | inr f ↦ rw f (
            Same-trans (call_sync-Same sb w) (
              Same-trans (superblock_free-Same sb (call_sync k sb w))
                record { list_same = refl; root_same = refl }))
      ]

  pub mount_alloc-Same : (w : World k.State) → SameMounts k.State w (mount_alloc k w).1
  unfolding mount_alloc
  mount_alloc-Same w = elim (Bool-cases ((alloc k 20 w).0 == 0)) [
    | inl t ↦ rw t record { list_same = refl; root_same = refl }
    | inr f ↦ rw f record { list_same = refl; root_same = refl }
  ]
