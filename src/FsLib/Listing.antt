-- ===== src/FsLib/Listing.antt =====
-- `fs_list_dir` of src/lib/fs.c: the entries of a directory.
pub mod Bounded
use dvivon_os.FsLib.{
  fs_err_nomem, fs_err_not_dir, fs_err_not_found, fs_err_io, fs_err_inval, W, size_code,
}
use dvivon_os.Vfs.Inode.{inode_put}
use dvivon_os.Ext2.Entry.{is_dir, rec_len, de_file_type, de_inode, de_name_len}
use dvivon_os.Base.{
  length, ◌-◌, ◌^◌, zero, ◌%◌, ◌||◌, ◌∷◌, suc, ◌&&◌, [], ltb, ◌==◌, List, Option, if◌then◌else◌,
  not, ◌+◌, Bool, ℕ, none, some,
}
use dvivon_os.Vfs.{alloc, release, Kernel}
use dvivon_os.Vfs.File.{is_positive}
use dvivon_os.Vfs.Dentry.{path_lookup}
use dvivon_os.Str.{CString}
use dvivon_os.Base.Buf.{Buf}

-- `fs_dir_entry_t`
pub record ListedEntry : Type 0 where
  pub name : CString
  pub ino : ℕ
  pub type : ℕ

-- `memcpy(name, de->name, nlen)`
abbrev pub bytes_at : Buf → ℕ → ℕ → List ℕ
bytes_at buf off zero = []
bytes_at buf off (suc n) = buf off ∷ bytes_at buf (off + 1) n

-- `FS_ENTRY_*` of `EXT2_FT_*`
abbrev pub entry_type : ℕ → ℕ
entry_type t = if t == 1 then 1 else if t == 2 then 2 else if t == 7 then 3 else 0

abbrev pub is_dot : Buf → ℕ → Bool
is_dot raw off =
    ((de_name_len raw off == 1) && (raw (off + 8) == b'.'))
    || ((de_name_len raw off == 2) && (raw (off + 8) == b'.') && (raw (off + 9) == b'.'))

abbrev pub listed : Buf → ℕ → ListedEntry
listed raw off = record {
  name = bytes_at raw (off + 8) (de_name_len raw off);
  ino = de_inode raw off;
  type = entry_type (de_file_type raw off);
}

-- Whether an entry is copied.
abbrev pub is_shown : (skip_dot : Bool) → Buf → ℕ → Bool
is_shown skip_dot raw off = not (de_inode raw off == 0) && (not skip_dot || not (is_dot raw off))

-- The loop over the records, for at most `room` more entries; none when the fuel runs out.
unfoldable pub list_from :
    ℕ → (skip_dot : Bool) → Buf → (bytes off room : ℕ) → Option (List ListedEntry)
list_from zero skip_dot raw bytes off room =
    if ltb off bytes && not (room == 0) then none else some []
list_from (suc fuel) skip_dot raw bytes off room =
    let next = (off + rec_len raw off) % 2 ^ 32 in
    let shown = list_from fuel skip_dot raw bytes next (room - 1) in
    let hidden = list_from fuel skip_dot raw bytes next room in
    if not (ltb off bytes) || (room == 0) || (rec_len raw off == 0)
    then some []
    else if is_shown skip_dot raw off
    then elim shown [ none ↦ none | some es ↦ some (listed raw off ∷ es) ]
    else hidden

-- `ext2_readdir` on the inode behind a pointer, and the bytes of a block of the heap.
module _ (k : Kernel) (readdir : ℕ → Buf → ℕ → ℕ → W k → ℕ × Buf × W k)
    (memory : k.State → ℕ → Buf) where
  -- The records that were read, in the block p.
  unfoldable pub list_records :
      (p : ℕ)
      → (max_entries : ℕ) → (skip_dot : Bool) → ℕ × Buf × W k
      → Option (ℕ × List ListedEntry × W k)
  list_records p max_entries skip_dot (bytes, raw, w) =
      let entries = list_from (suc bytes) skip_dot raw bytes 0 max_entries in
      if bytes == 0
      then some (0, [], release k p w)
      else if not (is_positive bytes)
      then some (size_code fs_err_io, [], release k p w)
      else elim entries [ none ↦ none | some es ↦ some (length es, es, release k p w) ]

  -- `fs_list_dir`: the count or the error, and the entries that are filled.
  unfoldable pub list_dir :
      CString → (max_entries : ℕ) → (skip_dot : Bool) → W k → Option (ℕ × List ListedEntry × W k)
  list_dir path max_entries skip_dot w =
      if max_entries == 0
      then some (size_code fs_err_inval, [], w)
      else elim (path_lookup k path w) [
        | none ↦ none
        | some (dir, w₁) ↦
            let size = (w₁.inodes dir).size in
            let (p, w₂) = alloc k size w₁ in
            let (bytes, raw, w₃) = readdir dir (memory w₂.rest p) size 0 w₂ in
            if dir == 0
            then some (size_code fs_err_not_found, [], w₁)
            else if not (is_dir (w₁.inodes dir).mode)
            then some (size_code fs_err_not_dir, [], inode_put k dir w₁)
            else if size == 0
            then some (0, [], inode_put k dir w₁)
            else if p == 0
            then some (size_code fs_err_nomem, [], inode_put k dir w₂)
            else list_records p max_entries skip_dot (bytes, raw, inode_put k dir w₃)
      ]
