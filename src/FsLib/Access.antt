-- ===== src/FsLib/Access.antt =====
-- The operations of src/lib/fs.c on one existing file or directory: reading, writing and queries.
pub mod Bounded
use dvivon_os.Base.{
  zero, not, ◌%◌, true, false, suc, ◌-◌, ◌^◌, Bool, bit_or, leb, ltb, ◌==◌, Option, if◌then◌else◌,
  ◌+◌, ℕ, none, some,
}
use dvivon_os.Vfs.File.{
  is_positive, file_stat, file_read, file_write, flag_read, file_open, flag_append, file_close,
  flag_write,
}
use dvivon_os.FsLib.{
  fs_ok, fs_err_io, fs_err_inval, fs_err_not_file, FsErr, is_file_mode, size_code, fs_err_not_found,
  W,
}
use dvivon_os.Ext2.Entry.{is_dir}
use dvivon_os.Vfs.Inode.{inode_put}
use dvivon_os.Vfs.{FsStat, VfsInode, Kernel}
use dvivon_os.Vfs.Dentry.{path_lookup}
use dvivon_os.Str.{CString}
use dvivon_os.Base.Buf.{Buf}

-- A buffer from a place on, and a buffer with such a part changed.
abbrev pub from : Buf → ℕ → Buf
from buf d i = buf (d + i)

abbrev pub write_from : Buf → ℕ → Buf → Buf
write_from buf d part i = if leb d i then part (i - d) else buf i

module _ (k : Kernel) where
  -- The loop of `fs_read_file`: the bytes read, and the buffer; none when the fuel runs out.
  unfoldable pub read_loop : ℕ → (f : ℕ) → Buf → (size total : ℕ) → W k → Option (ℕ × Buf × W k)
  read_loop zero f buf size total w = if ltb total size then none else some (total, buf, w)
  read_loop (suc fuel) f buf size total w =
      let (n, part, w₁) = file_read k f (from buf total) (size - total) w in
      let buf₁ = write_from buf total part in
      let rest = read_loop fuel f buf₁ size ((total + n) % 2 ^ 32) w₁ in
      if not (ltb total size)
      then some (total, buf, w)
      else if not (is_positive n)
      then some (total, buf₁, w₁)
      else rest

  -- The size and the buffer of a read, after the file is closed.
  abbrev closed : ℕ → Option (ℕ × Buf × W k) → Option (ℕ × Buf × W k)
  closed f none = none
  closed f (some (total, buf, w)) = some (total, buf, (file_close k f w).1)

  -- `fs_read_file`
  unfoldable pub read_file : CString → Buf → (size : ℕ) → W k → Option (ℕ × Buf × W k)
  read_file path buf size w =
      if size == 0
      then some (size_code fs_err_inval, buf, w)
      else elim (file_open k path flag_read w) [
        | none ↦ none
        | some (f, w₁) ↦
            if f == 0
            then some (size_code fs_err_not_found, buf, w₁)
            else closed f (read_loop size f buf size 0 w₁)
      ]

  -- `n < 0 ? (size_t)FS_ERR_IO : (size_t)n`
  abbrev pub written : ℕ → ℕ
  written n = if ltb n (2 ^ 31) then n else size_code fs_err_io

  -- A write of the whole buffer to a file opened with some flags.
  unfoldable pub write_with : (flags : ℕ) → CString → Buf → (len : ℕ) → W k → Option (ℕ × W k)
  write_with flags path content len w = elim (file_open k path flags w) [
    | none ↦ none
    | some (f, w₁) ↦
        if f == 0
        then some (size_code fs_err_not_found, w₁)
        else (let (n, w₂) = file_write k f content len w₁ in
            some (written n, (file_close k f w₂).1))
  ]

  -- `fs_write_file` and `fs_append_file`
  unfoldable pub write_file : CString → Buf → (len : ℕ) → W k → Option (ℕ × W k)
  write_file path content len w = write_with flag_write path content len w

  unfoldable pub append_file : CString → Buf → (len : ℕ) → W k → Option (ℕ × W k)
  append_file path content len w = write_with (bit_or flag_write flag_append) path content len w

  -- `fs_stat`
  unfoldable pub stat : CString → FsStat → W k → Option (FsErr × FsStat × W k)
  stat path st w = elim (file_open k path flag_read w) [
    | none ↦ none
    | some (f, w₁) ↦
        if f == 0
        then some (fs_err_not_found, st, w₁)
        else (let (rc, st₁, w₂) = file_stat k f st w₁ in
            some ((if rc == 0 then fs_ok else fs_err_io), st₁, (file_close k f w₂).1))
  ]

  -- A question about the inode of a path, with the answer when there is none.
  unfoldable pub query {ℓ} : {A : Type ℓ} → A → (VfsInode → A) → CString → W k → Option (A × W k)
  query missing ask path w = elim (path_lookup k path w) [
    | none ↦ none
    | some (p, w₁) ↦
        if p == 0 then some (missing, w₁) else some (ask (w₁.inodes p), inode_put k p w₁)
  ]

  -- `fs_exists`, `fs_is_dir`, `fs_is_file` and `fs_file_size`
  unfoldable pub exists : CString → W k → Option (Bool × W k)
  exists path w = query false (λ i. true) path w

  unfoldable pub is_directory : CString → W k → Option (Bool × W k)
  is_directory path w = query false (λ i. is_dir i.mode) path w

  unfoldable pub is_file : CString → W k → Option (Bool × W k)
  is_file path w = query false (λ i. is_file_mode i.mode) path w

  unfoldable pub file_size : CString → W k → Option (ℕ × W k)
  file_size path w =
      query (size_code fs_err_not_found)
        (λ i. if is_file_mode i.mode then i.size else size_code fs_err_not_file) path w
