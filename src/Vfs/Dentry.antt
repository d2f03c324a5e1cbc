-- ===== src/Vfs/Dentry.antt =====
-- src/fs/vfs/dentry.c: directory entries in memory and the resolution of paths.
pub mod Scan
pub mod Path
use dvivon_os.Base.{
  take, length, not, zero, ◌%◌, ◌-◌, ◌==◌, ◌^◌, ◌||◌, Option, if◌then◌else◌, suc, true, ◌+◌, Bool,
  [], ◌∷◌, ℕ, none, some,
}
use dvivon_os.Vfs.Inode.{inode_get, inode_put}
use dvivon_os.Str.{chars, CString}
use dvivon_os.Vfs.{release, DirEntry, release_if, alloc, World, Kernel}
use dvivon_os.Vfs.Mount.{get_root_mount}
use dvivon_os.Base.Buf.{update}

-- `while (*path == '/') path++;`
unfoldable pub skip_slashes : CString → CString
skip_slashes [] = []
skip_slashes (c ∷ cs) = let rest = skip_slashes cs in if c == b'/' then rest else c ∷ cs

-- The next component, of at most n bytes, and what stands behind it.
unfoldable pub take_component : (n : ℕ) → CString → CString × CString
take_component zero path = ([], path)
take_component (suc n) [] = ([], [])
take_component (suc n) (c ∷ cs) =
    let (name, rest) = take_component n cs in
    if (c == 0) || (c == b'/') then ([], c ∷ cs) else (c ∷ name, rest)

-- `*path`, at its end or before it.
abbrev pub at_end : CString → Bool
at_end [] = true
at_end (c ∷ cs) = c == 0

module _ (k : Kernel) where
  -- `sizeof(dentry_t)`
  abbrev dentry_bytes : ℕ
  dentry_bytes = 24

  -- `dentry_new`, for the first `name_len` bytes of a name.
  unfoldable pub dentry_new : CString → (name_len inode : ℕ) → World k.State → ℕ × World k.State
  dentry_new name name_len inode w =
      let (p, w₁) = alloc k dentry_bytes w in
      let (q, w₂) = alloc k (name_len + 1) w₁ in
      let fresh : DirEntry = record {
        name = q;
        name_bytes = take name_len name;
        name_len = name_len;
        inode = inode;
        ref_count = 1;
        parent = 0;
        fs_data = 0;
      } in
      if p == 0
      then (0, w₁)
      else if q == 0
      then (0, release k p w₂)
      else (p, inode_get k inode (record w₂ { dentries = update w₂.dentries p fresh }))

  abbrev set_entry_count : ℕ → ℕ → World k.State → World k.State
  set_entry_count p n w = record w {
    dentries = update w.dentries p (record (w.dentries p) { ref_count = n });
  }

  -- `dentry_get`
  unfoldable pub dentry_get : ℕ → World k.State → World k.State
  dentry_get p w =
      if p == 0 then w else set_entry_count p (((w.dentries p).ref_count + 1) % 2 ^ 32) w

  -- `dentry_free`
  unfoldable pub dentry_free : ℕ → World k.State → World k.State
  dentry_free p w =
      let w₁ = inode_put k (w.dentries p).inode w in
      let w₂ = release_if k (w₁.dentries p).fs_data w₁ in
      let w₃ = release_if k (w₂.dentries p).name w₂ in if p == 0 then w else release k p w₃

  -- `dentry_put`
  unfoldable pub dentry_put : ℕ → World k.State → World k.State
  dentry_put p w =
      let left = ((w.dentries p).ref_count + 2 ^ 32 - 1) % 2 ^ 32 in
      let w₁ = set_entry_count p left w in
      if p == 0 then w else if left == 0 then dentry_free p w₁ else w₁

  -- `current->f_ops->lookup`, none where the table or the member is NULL.
  abbrev pub lookup_of :
      ℕ → World k.State → Option (ℕ → CString → World k.State → ℕ × World k.State)
  lookup_of p w =
      let table = (w.inodes p).f_ops in if table == 0 then none else (k.file_ops table).lookup

  -- One component resolved, and the reference to the directory given back.
  unfoldable pub step : ℕ → CString → World k.State → ℕ × World k.State
  step current name w = elim (lookup_of current w) [
    | none ↦ (0, inode_put k current w)
    | some f ↦ let (next, w₁) = f current name w in (next, inode_put k current w₁)
  ]

  -- The loop of `path_lookup_relative`, with fuel; none when it runs out.
  unfoldable pub walk_path : ℕ → ℕ → CString → World k.State → Option (ℕ × World k.State)
  walk_path zero current path w = none
  walk_path (suc fuel) current path w =
      let (name, rest) = take_component 255 (skip_slashes path) in
      let (next, w₁) = step current name w in
      let later = walk_path fuel next rest w₁ in
      if at_end path || at_end (skip_slashes path)
      then some (current, w)
      else if next == 0
      then some (0, w₁)
      else later

  -- `path_lookup_relative`: each round takes at least one byte of the path.
  unfoldable pub path_lookup_relative : ℕ → CString → World k.State → Option (ℕ × World k.State)
  path_lookup_relative start path w =
      if start == 0
      then some (0, w)
      else walk_path (suc (length path)) start path (inode_get k start w)

  -- `path_lookup`
  unfoldable pub path_lookup : CString → World k.State → Option (ℕ × World k.State)
  path_lookup path w =
      let mnt = get_root_mount k w in
      let sb = (w.mounts mnt).sb in
      let root = (w.supers sb).root in
      let below = skip_slashes path in
      if not (chars path 0 == b'/')
      then some (0, w)
      else if (mnt == 0) || (sb == 0) || (root == 0)
      then some (0, w)
      else if at_end below
      then some (root, inode_get k root w)
      else path_lookup_relative root below w
