-- ===== src/Vfs/Filesystem/Registry.antt =====
-- The list of file system types of src/fs/vfs/filesystem.c.
use dvivon_os.Vfs.Filesystem.{
  name_of, unlink_first, unregister_filesystem, find_type, get_filesystem, register_filesystem,
}
use dvivon_os.Base.{refl, ==_refl, inr, arith, inl, ◌==◌, Bool-cases, ◌≡◌, ℕ, some}
use dvivon_os.Str.Strings.{strcmp_refl}
use dvivon_os.Str.{CString}
use dvivon_os.Vfs.{World, Kernel}

module _ (k : Kernel) (fs : ℕ) (w : World k.State) where
  -- A type that register_filesystem accepted is the one that get_filesystem finds under its name, and
  -- unregister_filesystem takes it out again and leaves the list as it was.
  pub registered_lem :
      (name : CString)
      → (k.fs_types fs).name ≡ some name
      → (register_filesystem k fs w).0 ≡ 0
      → (let w' = (register_filesystem k fs w).1 in
          (get_filesystem k name w' ≡ fs)
          × ((unregister_filesystem k fs w').0 ≡ 0)
          × ((unregister_filesystem k fs w').1.filesystem_list ≡ w.filesystem_list))
  unfolding register_filesystem get_filesystem find_type unregister_filesystem unlink_first
  registered_lem name e ok = elim (Bool-cases (fs == 0)) [
    | inl t ↦ absurd (omega (arith, rw t at ok))
    | inr f ↦ elim (Bool-cases (find_type k name w.filesystem_list == 0)) [
      | inr taken ↦ absurd (omega (arith, rw (f, e, taken) at ok))
      | inl free ↦ rw (f, e, free, ==_refl fs) (rw (name_lem, strcmp_refl name) refl, refl, refl)
    ]
  ]
    where
      name_lem : name_of k fs ≡ name
      name_lem = rw (e, name_of) refl
