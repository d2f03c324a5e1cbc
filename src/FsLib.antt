-- ===== src/FsLib.antt =====
-- src/lib/fs.c: the operations on files and directories by path.
-- A result is none where a NULL member is called, which traps, or where fuel runs out.
pub mod Split
pub mod Listing
pub mod Access
pub mod Refusal
mod Tests
use dvivon_os.Ext2.Entry.{type_regular, type_mask}
use dvivon_os.Base.{
  ◌∷◌, ◌||◌, leb, ◌+◌, drop, take, not, zero, [], bit_and, suc, ◌-◌, ◌==◌, Bool, Option,
  if◌then◌else◌, ◌^◌, ℕ, none, some,
}
use dvivon_os.Vfs.Dentry.{path_lookup}
use dvivon_os.Vfs.Inode.{inode_put}
use dvivon_os.Str.{chars, strlen, CString}
use dvivon_os.Vfs.{FileOps, World, Kernel}

-- `enum fs_err`
pub data FsErr : Type 0 where
  fs_ok fs_err fs_err_inval fs_err_not_found fs_err_not_dir fs_err_not_file fs_err_io : FsErr
  fs_err_nomem : FsErr

-- An error code as a `size_t`.
unfoldable pub size_code : FsErr → ℕ
size_code fs_ok = 0
size_code fs_err = 2 ^ 32 - 1
size_code fs_err_inval = 2 ^ 32 - 2
size_code fs_err_not_found = 2 ^ 32 - 3
size_code fs_err_not_dir = 2 ^ 32 - 4
size_code fs_err_not_file = 2 ^ 32 - 5
size_code fs_err_io = 2 ^ 32 - 6
size_code fs_err_nomem = 2 ^ 32 - 7

-- `while (n > 0 && p(n)) n--;`
unfoldable pub scan_down : (ℕ → Bool) → ℕ → ℕ
scan_down p zero = 0
scan_down p (suc n) = let rest = scan_down p n in if p (suc n) then rest else suc n

abbrev pub slash_at : CString → ℕ → Bool
slash_at path i = chars path i == b'/'

-- `split_absolute_path`: the parent directory and the name, none for -1.
unfoldable pub split_absolute_path : (path : CString) → (pmax nmax : ℕ) → Option (CString × CString)
split_absolute_path path pmax nmax =
    let len = strlen path in
    let end = scan_down (slash_at path) (len - 1) in
    let slash = scan_down (λ i. not (slash_at path i)) end in
    let nlen = end - slash in
    let name = take nlen (drop (slash + 1) path) in
    if leb len 1
    then none
    else if not (slash_at path 0)
    then none
    else if (nlen == 0) || leb nmax nlen
    then none
    else if slash == 0
    then some (b'/' ∷ [], name)
    else if leb pmax slash
    then none
    else some (take slash path, name)

-- `FS_IS_FILE` of a mode.
abbrev pub is_file_mode : ℕ → Bool
is_file_mode mode = bit_and mode type_mask == type_regular

module _ (k : Kernel) where
  abbrev pub W : Type 0
  W = World k.State

  -- `resolve_parent`: the inode of the parent, 0 for NULL, with the error and the name.
  unfoldable pub resolve_parent : CString → W → Option (ℕ × FsErr × CString × W)
  resolve_parent path w = elim (split_absolute_path path 256 256) [
    | none ↦ some (0, fs_err_inval, [], w)
    | some (parent, name) ↦ elim (path_lookup k parent w) [
      | none ↦ none
      | some (p, w₁) ↦ some (p, (if p == 0 then fs_err_not_found else fs_err), name, w₁)
    ]
  ]

  -- `rc == 0 ? FS_OK : FS_ERR_IO` after the parent is given back.
  abbrev pub finish : ℕ → ℕ × W → FsErr × W
  finish parent (rc, w) = ((if rc == 0 then fs_ok else fs_err_io), inode_put k parent w)

  -- An operation on the parent directory and the name.
  unfoldable pub in_parent :
      (FileOps W → Option (ℕ → CString → W → ℕ × W)) → CString → W → Option (FsErr × W)
  in_parent member path w = elim (resolve_parent path w) [
    | none ↦ none
    | some (parent, err, name, w₁) ↦
        if parent == 0
        then some (err, w₁)
        else elim (member (k.file_ops (w₁.inodes parent).f_ops)) [
          | none ↦ none
          | some f ↦ some (finish parent (f parent name w₁))
        ]
  ]

  -- A member that takes permissions, with them.
  abbrev pub with_mode : ℕ → Option (ℕ → CString → ℕ → W → ℕ × W) → Option (ℕ → CString → W → ℕ × W)
  with_mode mode none = none
  with_mode mode (some f) = some (λ p name w. f p name mode w)

  -- `fs_create_file`, `fs_remove_file`, `fs_create_dir` and `fs_remove_dir`
  unfoldable pub create_file : CString → W → Option (FsErr × W)
  create_file path w = in_parent (λ t. with_mode 0o644 t.create) path w

  unfoldable pub remove_file : CString → W → Option (FsErr × W)
  remove_file path w = in_parent (λ t. t.unlink) path w

  unfoldable pub create_dir : CString → W → Option (FsErr × W)
  create_dir path w = in_parent (λ t. with_mode 0o755 t.mkdir) path w

  unfoldable pub remove_dir : CString → W → Option (FsErr × W)
  remove_dir path w = in_parent (λ t. t.rmdir) path w
