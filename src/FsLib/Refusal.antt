-- ===== src/FsLib/Refusal.antt =====
-- The paths that the operations of src/lib/fs.c on a parent directory refuse.
use dvivon_os.Base.{
  [], ◌-◌, ◌∙◌, sym, refl, arith, ◌<◌, leb, true, ◌⊎◌, Bool-cases, false, ◌≤◌, Bool, Option, ◌≡◌, ℕ,
  none, some, zero, suc, inl, inr,
}
use mathlib.Core.Bool.{false≢true}
use dvivon_os.FsLib.{
  with_mode, remove_dir, create_dir, fs_err_inval, FsErr, remove_file, resolve_parent, create_file,
  in_parent, W, slash_at, scan_down, split_absolute_path,
}
use dvivon_os.Str.{strlen, CString}
use dvivon_os.Vfs.{FileOps, Kernel}

-- A path that does not start at the root, or that names nothing below it.
abbrev pub IsBad : CString → Type 0
IsBad path = (slash_at path 0 ≡ false) ⊎ ((i : ℕ) → i < strlen path → slash_at path i ≡ true)

scan_down-zero : (p : ℕ → Bool) (n : ℕ) → ((i : ℕ) → i ≤ n → p i ≡ true) → scan_down p n ≡ 0
unfolding scan_down
scan_down-zero p zero all = refl
scan_down-zero p (suc n) all =
    rw (all (suc n) (omega arith)) (scan_down-zero p n (λ i le. all i (omega arith)))

split-IsBad :
    (path : CString) (pmax nmax : ℕ) → IsBad path → split_absolute_path path pmax nmax ≡ none
unfolding split_absolute_path scan_down
split-IsBad path pmax nmax bad = elim (Bool-cases (leb (strlen path) 1)) [
  | inl t ↦ rw t refl
  | inr long ↦ elim (Bool-cases (slash_at path 0)) [
    | inr f ↦ rw (long, f) refl
    | inl t ↦ elim bad [
      | inl f ↦ absurd (false≢true (sym f ∙ t))
      | inr all ↦
          let end =
            scan_down-zero (slash_at path) (strlen path - 1) (λ i le. all i (ground arith)) in
          rw (long, t, end) refl
    ]
  ]
]

module _ (k : Kernel) (path : CString) (w : W k) where
  abbrev Refused : Option (FsErr × W k) → Type 0
  Refused r = r ≡ some (fs_err_inval, w)

  refused_parent : IsBad path → resolve_parent k path w ≡ some (0, fs_err_inval, [], w)
  unfolding resolve_parent
  refused_parent bad = rw (resolve_parent, split-IsBad path 256 256 bad) refl

  in_parent-IsBad :
      (member : FileOps (W k) → Option (ℕ → CString → W k → ℕ × W k))
      → IsBad path
      → Refused (in_parent k member path w)
  unfolding in_parent
  in_parent-IsBad member bad = rw (in_parent, refused_parent bad) refl

  -- Making or removing a file or a directory under a path that does not start with a slash, or that has
  -- nothing but slashes, gives FS_ERR_INVAL and touches nothing.
  pub operations-IsBad :
      IsBad path
      → (create_file k path w ≡ some (fs_err_inval, w))
        × (remove_file k path w ≡ some (fs_err_inval, w))
        × (create_dir k path w ≡ some (fs_err_inval, w))
        × (remove_dir k path w ≡ some (fs_err_inval, w))
  unfolding create_file remove_file create_dir remove_dir
  operations-IsBad bad = (
    in_parent-IsBad (λ t. with_mode k 0o644 t.create) bad,
    in_parent-IsBad (λ t. t.unlink) bad,
    in_parent-IsBad (λ t. with_mode k 0o755 t.mkdir) bad,
    in_parent-IsBad (λ t. t.rmdir) bad,
  )
