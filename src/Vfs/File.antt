-- ===== src/Vfs/File.antt =====
-- src/fs/vfs/file.c: open files.
use dvivon_os.Base.{
  ltb, ◌^◌, ◌%◌, ◌&&◌, bit_and, ◌+◌, ◌==◌, Option, if◌then◌else◌, not, Bool, ℕ, none, some,
}
use dvivon_os.Vfs.Inode.{inode_put}
use dvivon_os.Vfs.{release, OpenFile, vfs_error, alloc, FsStat, World, Kernel}
use dvivon_os.Vfs.Dentry.{path_lookup}
use dvivon_os.Base.Buf.{update, Buf}
use dvivon_os.Str.{CString}

abbrev pub flag_read : ℕ
flag_read = 1

abbrev pub flag_write : ℕ
flag_write = 2

abbrev pub flag_append : ℕ
flag_append = 4

-- `ret > 0` for an `int`.
abbrev pub is_positive : ℕ → Bool
is_positive ret = not (ret == 0) && ltb ret (2 ^ 31)

module _ (k : Kernel) where
  -- `sizeof(file_t)`
  abbrev file_bytes : ℕ
  file_bytes = 16

  -- A resolved inode opened.
  unfoldable pub attach_file : (inode flags : ℕ) → World k.State → ℕ × World k.State
  attach_file inode flags w =
      let (p, w₁) = alloc k file_bytes w in
      let fresh : OpenFile = record { inode = inode; flags = flags; offset = 0; ref_count = 1 } in
      if inode == 0
      then (0, w)
      else if p == 0
      then (0, inode_put k inode w₁)
      else (p, record w₁ { files = update w₁.files p fresh })

  -- `file_open`; none when the resolution of the path runs out of fuel.
  unfoldable pub file_open : CString → (flags : ℕ) → World k.State → Option (ℕ × World k.State)
  file_open path flags w = elim (path_lookup k path w) [
    | none ↦ none
    | some (inode, w₁) ↦ some (attach_file inode flags w₁)
  ]

  -- `file_close`
  unfoldable pub file_close : ℕ → World k.State → ℕ × World k.State
  file_close f w =
      if f == 0 then (vfs_error, w) else (0, release k f (inode_put k (w.files f).inode w))

  -- `file->offset = n`
  abbrev pub set_offset : ℕ → ℕ → World k.State → World k.State
  set_offset f n w = record w { files = update w.files f (record (w.files f) { offset = n }) }

  -- `if (ret > 0) file->offset += ret;`
  abbrev pub advance : ℕ → ℕ → World k.State → World k.State
  advance f ret w =
      if is_positive ret then set_offset f (((w.files f).offset + ret) % 2 ^ 32) w else w

  -- A file that is not NULL and has an inode.
  abbrev pub is_open : ℕ → World k.State → Bool
  is_open f w = not (f == 0) && not ((w.files f).inode == 0)

  -- The member of the table of the file's inode, none where one of the two is NULL.
  abbrev pub table_of : ℕ → World k.State → ℕ
  table_of f w = (w.inodes (w.files f).inode).f_ops

  abbrev pub read_of :
      ℕ → World k.State → Option (ℕ → Buf → ℕ → ℕ → World k.State → ℕ × Buf × World k.State)
  read_of f w = if table_of f w == 0 then none else (k.file_ops (table_of f w)).read

  abbrev pub write_of :
      ℕ → World k.State → Option (ℕ → Buf → ℕ → ℕ → World k.State → ℕ × World k.State)
  write_of f w = if table_of f w == 0 then none else (k.file_ops (table_of f w)).write

  abbrev pub stat_of :
      ℕ → World k.State → Option (ℕ → FsStat → World k.State → ℕ × FsStat × World k.State)
  stat_of f w = if table_of f w == 0 then none else (k.file_ops (table_of f w)).stat

  -- `file_read`: the result and the buffer afterwards.
  unfoldable pub file_read : ℕ → Buf → (count : ℕ) → World k.State → ℕ × Buf × World k.State
  file_read f buf count w = if not (is_open f w) then (vfs_error, buf, w) else elim (read_of f w) [
    | none ↦ (vfs_error, buf, w)
    | some read ↦
        let (ret, buf₁, w₁) = read (w.files f).inode buf count (w.files f).offset w in
        (ret, buf₁, advance f ret w₁)
  ]

  -- `FILE_FLAG_APPEND`: to the end of the file.
  abbrev pub at_append : ℕ → World k.State → World k.State
  at_append f w =
      if bit_and (w.files f).flags flag_append == 0
      then w
      else set_offset f (w.inodes (w.files f).inode).size w

  -- `file_write`
  unfoldable pub file_write : ℕ → Buf → (count : ℕ) → World k.State → ℕ × World k.State
  file_write f buf count w =
      let w₁ = at_append f w in
      if not (is_open f w) then (vfs_error, w) else elim (write_of f w₁) [
        | none ↦ (vfs_error, w₁)
        | some write ↦
            let (ret, w₂) = write (w₁.files f).inode buf count (w₁.files f).offset w₁ in
            (ret, advance f ret w₂)
      ]

  -- `file_seek`
  unfoldable pub file_seek : ℕ → (offset : ℕ) → World k.State → ℕ × World k.State
  file_seek f offset w = if f == 0 then (vfs_error, w) else (offset, set_offset f offset w)

  -- `file_stat`
  unfoldable pub file_stat : ℕ → FsStat → World k.State → ℕ × FsStat × World k.State
  file_stat f st w = if not (is_open f w) then (vfs_error, st, w) else elim (stat_of f w) [
    | none ↦ (vfs_error, st, w)
    | some stat ↦ stat (w.files f).inode st w
  ]
