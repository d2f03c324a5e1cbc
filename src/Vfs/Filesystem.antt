-- ===== src/Vfs/Filesystem.antt =====
-- src/fs/vfs/filesystem.c: the list of file system types.
pub mod Registry
use dvivon_os.Base.{
  not, some, false, none, Option, true, ◌==◌, ◌∷◌, Bool, List, [], if◌then◌else◌, ℕ,
}
use dvivon_os.Str.{same, strcmp, CString, Sign}
use dvivon_os.Vfs.{vfs_error, World, Kernel}

-- A pointer taken out of a list at its first place.
unfoldable pub unlink_first : ℕ → List ℕ → Option (List ℕ)
unlink_first p [] = none
unlink_first p (q ∷ qs) =
    let rest = unlink_first p qs in
    if q == p then some qs else elim rest [ none ↦ none | some rs ↦ some (q ∷ rs) ]

abbrev is_same : Sign → Bool
is_same same = true
is_same _ = false

module _ (k : Kernel) where
  abbrev pub W : Type 0
  W = World k.State

  -- The name of a type that stands in the list: a type without one is not accepted there.
  abbrev pub name_of : ℕ → CString
  name_of p = elim (k.fs_types p).name [ none ↦ [] | some s ↦ s ]

  -- The loop of `get_filesystem`.
  unfoldable pub find_type : CString → List ℕ → ℕ
  find_type name [] = 0
  find_type name (p ∷ ps) =
      let rest = find_type name ps in if is_same (strcmp (name_of p) name) then p else rest

  -- `get_filesystem`
  unfoldable pub get_filesystem : CString → W → ℕ
  get_filesystem name w = find_type name w.filesystem_list

  -- `register_filesystem`: `strcmp(p->name, fs->name)` for each p.
  unfoldable pub register_filesystem : ℕ → W → ℕ × W
  register_filesystem fs w = if fs == 0 then (vfs_error, w) else elim (k.fs_types fs).name [
    | none ↦ (vfs_error, w)
    | some name ↦
        if not (find_type name w.filesystem_list == 0)
        then (vfs_error, w)
        else (0, record w { filesystem_list = fs ∷ w.filesystem_list })
  ]

  -- `unregister_filesystem`
  unfoldable pub unregister_filesystem : ℕ → W → ℕ × W
  unregister_filesystem fs w =
      if fs == 0 then (vfs_error, w) else elim (unlink_first fs w.filesystem_list) [
        | none ↦ (vfs_error, w)
        | some ps ↦ (0, record w { filesystem_list = ps })
      ]

  -- `filesystem_init`, with the pointer to the type that `ext2_init` registers.
  unfoldable pub filesystem_init : (ext2 : ℕ) → W → ℕ × W
  filesystem_init ext2 w = (0, (register_filesystem ext2 (record w { filesystem_list = [] })).1)
