-- ===== src/Ext2/Entry.antt =====
-- The layout of one directory entry, `ext2_dir_entry_t`, and its type codes.
pub mod Codes
use dvivon_os.Str.{chars, memcpy, same, strlen, CString, Sign}
use dvivon_os.Base.{◌%◌, false, ◌-◌, true, ◌==◌, ◌^◌, Bool, bit_and, if◌then◌else◌, ◌+◌, ℕ}
use dvivon_os.Base.Buf.{update, get16, get32, put16, put32, Buf}

abbrev pub type_mask : ℕ
type_mask = 61440

abbrev pub type_socket : ℕ
type_socket = 49152

abbrev pub type_link : ℕ
type_link = 40960

abbrev pub type_regular : ℕ
type_regular = 32768

abbrev pub type_block : ℕ
type_block = 24576

abbrev pub type_dir : ℕ
type_dir = 16384

abbrev pub type_char : ℕ
type_char = 8192

abbrev pub type_fifo : ℕ
type_fifo = 4096

-- `FS_IS_DIR`
abbrev pub is_dir : ℕ → Bool
is_dir mode = bit_and mode type_mask == type_dir

-- `ext2_get_dir_entry_type`: from `EXT2_FT_*` to `FS_FILE_TYPE_*`
unfoldable pub get_dir_entry_type : ℕ → ℕ
get_dir_entry_type t =
    if t == 1
    then type_regular
    else if t == 2
    then type_dir
    else if t == 3
    then type_char
    else if t == 4
    then type_block
    else if t == 5
    then type_fifo
    else if t == 6
    then type_socket
    else if t == 7
    then type_link
    else 0

-- `ext2_set_dir_entry_type`, of a masked type
unfoldable pub code_of : ℕ → ℕ
code_of t =
    if t == type_regular
    then 1
    else if t == type_dir
    then 2
    else if t == type_char
    then 3
    else if t == type_block
    then 4
    else if t == type_fifo
    then 5
    else if t == type_socket
    then 6
    else if t == type_link
    then 7
    else 0

unfoldable pub set_dir_entry_type : ℕ → ℕ
set_dir_entry_type mode = code_of (bit_and mode type_mask)

-- `ext2_dir_rec_len`: `(8 + name_len + 3) & ~3U`
unfoldable pub dir_rec_len : ℕ → ℕ
dir_rec_len n = bit_and (8 + n + 3) (2 ^ 32 - 4)

module _ (buf : Buf) (off : ℕ) where
  abbrev pub de_inode : ℕ
  de_inode = get32 buf off

  abbrev pub rec_len : ℕ
  rec_len = get16 buf (off + 4)

  abbrev pub de_name_len : ℕ
  de_name_len = buf (off + 6)

  abbrev pub de_file_type : ℕ
  de_file_type = buf (off + 7)

  abbrev pub set_de_inode : ℕ → Buf
  set_de_inode v = put32 buf off v

  abbrev pub set_rec_len : ℕ → Buf
  set_rec_len v = put16 buf (off + 4) v

  -- The assignments of all fields but `rec_len`, the name with `memcpy`.
  unfoldable pub put_entry : (ino : ℕ) → CString → (type : ℕ) → Buf
  put_entry ino name type =
      let head = put32 buf off ino in
      let typed = update (update head (off + 6) (strlen name % 256)) (off + 7) (type % 256) in
      memcpy typed (off + 8) (chars name) 0 (strlen name)

abbrev pub is_same : Sign → Bool
is_same same = true
is_same _ = false
