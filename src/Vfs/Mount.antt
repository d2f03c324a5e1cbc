-- ===== src/Vfs/Mount.antt =====
-- src/fs/vfs/mount.c: the mount list and the root mount.
pub mod Callbacks
pub mod Table
use dvivon_os.Vfs.Filesystem.{name_of, unlink_first, get_filesystem}
use dvivon_os.Base.{◌||◌, ◌==◌, List, [], if◌then◌else◌, ◌∷◌, ℕ, none, some}
use dvivon_os.Vfs.{vfs_error, alloc, release_if, MountEntry, World, Kernel}
use dvivon_os.Base.Buf.{update}
use dvivon_os.Str.{CString}
use dvivon_os.Vfs.Superblock.{superblock_free}

module _ (k : Kernel) where
  -- `sizeof(mount_t)`
  abbrev pub mount_bytes : ℕ
  mount_bytes = 20

  abbrev zero_mount : MountEntry
  zero_mount = record { dev = 0; fs_type = []; flags = 0; sb = 0 }

  -- `mount_alloc`
  unfoldable pub mount_alloc : World k.State → ℕ × World k.State
  mount_alloc w =
      let (p, w₁) = alloc k mount_bytes w in
      if p == 0 then (0, w₁) else (p, record w₁ { mounts = update w₁.mounts p zero_mount })

  -- `mount_free`
  abbrev pub mount_free : ℕ → World k.State → World k.State
  mount_free mnt w = release_if k mnt w

  -- `mount_add`
  unfoldable pub mount_add : ℕ → World k.State → World k.State
  mount_add mnt w = if mnt == 0 then w else record w { mount_list = mnt ∷ w.mount_list }

  -- `mount_remove`
  unfoldable pub mount_remove : ℕ → World k.State → World k.State
  mount_remove mnt w = if mnt == 0 then w else elim (unlink_first mnt w.mount_list) [
    | none ↦ w
    | some ms ↦ record w { mount_list = ms }
  ]

  -- The entry that `mount` fills and links in.
  unfoldable pub enter_mount : (mnt dev sb flags : ℕ) → CString → World k.State → World k.State
  enter_mount mnt dev sb flags type w =
      let entry : MountEntry = record {
        dev = k.major dev;
        fs_type = type;
        flags = flags;
        sb = sb;
      } in
      let w₁ = mount_add mnt (record w { mounts = update w.mounts mnt entry }) in
      if w₁.root_mount == 0 then record w₁ { root_mount = mnt } else w₁

  -- `mount`: the pointer to the mount, 0 when it fails.
  unfoldable pub mount : (dev : ℕ) → CString → (flags : ℕ) → World k.State → ℕ × World k.State
  mount dev type flags w =
      let fs = get_filesystem k type w in
      let (sb, w₁) = (k.fs_types fs).mount dev w in
      let (mnt, w₂) = mount_alloc w₁ in
      if (dev == 0) || (fs == 0)
      then (0, w)
      else if sb == 0
      then (0, w₁)
      else if mnt == 0
      then (0, superblock_free k sb w₂)
      else (mnt, enter_mount mnt dev sb flags (name_of k fs) w₂)

  -- `mnt->sb->ops && mnt->sb->ops->sync`, called.
  abbrev pub call_sync : ℕ → World k.State → World k.State
  call_sync sb w =
      let table = (w.supers sb).ops in
      if table == 0 then w else elim (k.super_ops table).sync [ none ↦ w | some f ↦ (f sb w).1 ]

  -- The superblock of a mount synced and freed.
  unfoldable pub drop_superblock : ℕ → World k.State → World k.State
  drop_superblock mnt w =
      let sb = (w.mounts mnt).sb in
      let w₁ = superblock_free k sb (call_sync sb w) in
      if sb == 0
      then w
      else record w₁ { mounts = update w₁.mounts mnt (record (w₁.mounts mnt) { sb = 0 }) }

  -- `umount`
  unfoldable pub umount : ℕ → World k.State → ℕ × World k.State
  umount mnt w =
      let w₁ = mount_remove mnt (drop_superblock mnt w) in
      let w₂ = if w₁.root_mount == mnt then record w₁ { root_mount = 0 } else w₁ in
      if mnt == 0 then (vfs_error, w) else (0, mount_free mnt w₂)

  unfoldable pub find_mount : (dev : ℕ) → (ℕ → MountEntry) → List ℕ → ℕ
  find_mount dev mounts [] = 0
  find_mount dev mounts (m ∷ ms) =
      let rest = find_mount dev mounts ms in if (mounts m).dev == dev then m else rest

  -- `get_mount`
  unfoldable pub get_mount : (dev : ℕ) → World k.State → ℕ
  get_mount dev w = find_mount dev w.mounts w.mount_list

  -- `get_root_mount`
  abbrev pub get_root_mount : World k.State → ℕ
  get_root_mount w = w.root_mount

  -- `mount_init`, with the device that `ata_create_block_device` gives.
  unfoldable pub mount_init : (dev : ℕ) → World k.State → ℕ × World k.State
  mount_init dev w =
      let (mnt, w₁) =
        mount dev (b'e' ∷ b'x' ∷ b't' ∷ b'2' ∷ []) 0
          (record w { mount_list = []; root_mount = 0 }) in
      if dev == 0
      then (vfs_error, record w { mount_list = []; root_mount = 0 })
      else if mnt == 0
      then (vfs_error, w₁)
      else (0, w₁)
