-- ===== src/Vfs/Tests.antt =====
-- A kernel whose heap hands out fresh pointers and whose file system finds every name.
use dvivon_os.Vfs.File.{table_of, is_positive, file_read}
use mathlib.Core.Bool.{false≢true}
use dvivon_os.Base.{
  ◌==◌, Bool-cases, ◌≤◌, ◌*◌, length, ltb, true, ◌/◌, [], arith, if◌then◌else◌, refl, ◌++◌, ◌+◌,
  ◌∷◌, ◌≡◌, ℕ, none, some, inl, inr,
}
use dvivon_os.FsLib.Access.Bounded.{read_loop-Bounded, ReadsAtMost}
use dvivon_os.FsLib.Access.{read_loop}
use dvivon_os.Base.Buf.{Buf}
use dvivon_os.FsLib.Refusal.{operations-IsBad}
use dvivon_os.FsLib.{remove_dir, create_dir, remove_file, fs_err_inval, create_file}
use dvivon_os.Vfs.Dentry.Scan.{done, next, IsComponent, Spells, slash_first}
use dvivon_os.Vfs.Dentry.Path.{path_lookup-Spells, path_lookup-total, walk_names, HasRoot}
use dvivon_os.Vfs.Mount.Table.{mount-RootListed, umount-RootListed, RootListed}
use dvivon_os.Vfs.Mount.Callbacks.{KeepsMounts}
use dvivon_os.Vfs.Filesystem.{find_type, register_filesystem}
use dvivon_os.Vfs.Inode.{inode_get, inode_put}
use dvivon_os.Vfs.Mount.{mount, umount}
use dvivon_os.Vfs.{FileOps, Kernel, World}
use dvivon_os.Str.{CString}
use dvivon_os.Vfs.Dentry.{path_lookup, step}

-- The inode of a name below a directory: ten times the directory and the length of the name, as long
-- as no name is longer than three bytes.
abbrev find : ℕ → CString → World ℕ → ℕ × World ℕ
find dir name w = (if ltb 3 (length name) then 0 else dir * 10 + length name, w)

abbrev toy_files : FileOps (World ℕ)
toy_files = record {
  lookup = some find;
  mkdir = none;
  rmdir = none;
  create = none;
  unlink = none;
  read = some (λ p buf count off w. (if ltb count 5 then count else 5, buf, w));
  write = none;
  stat = none;
  release = none;
}

abbrev ext2_name : CString
ext2_name = b'e' ∷ b'x' ∷ b't' ∷ b'2' ∷ []

abbrev toy : Kernel
toy = record {
  State = ℕ;
  kmalloc = λ s n. (s, s + n);
  kfree = λ s p. s;
  file_ops = λ t. toy_files;
  super_ops = λ t. record { sync = none; put_superblock = none };
  fs_types = λ p. record { name = some ext2_name; mount = λ dev w. (dev + 70, w) };
  major = λ dev. dev / 8;
}

-- Mount 5 of superblock 6 with root inode 7, where every inode has one reference.
abbrev toy_world : World ℕ
toy_world = record {
  inodes = λ p. record {
    ino = p;
    sb = 6;
    mode = 0;
    size = 0;
    uid = 0;
    gid = 0;
    nlink = 1;
    atime = 0;
    mtime = 0;
    ctime = 0;
    blksize = 1024;
    blocks = 0;
    flags = 0;
    ref_count = 1;
    fs_data = 0;
    f_ops = 9;
  };
  supers = λ p. record {
    dev = 1;
    blocksize = 1024;
    blocksize_bits = 10;
    flags = 0;
    type_name = 0;
    type_bytes = ext2_name;
    root = 7;
    fs_data = 0;
    ops = 0;
  };
  mounts = λ p. record { dev = 1; fs_type = ext2_name; flags = 0; sb = 6 };
  dentries = λ p. record {
    name = 0;
    name_bytes = [];
    name_len = 0;
    inode = 0;
    ref_count = 1;
    parent = 0;
    fs_data = 0;
  };
  files = λ p. record { inode = 7; flags = 0; offset = 0; ref_count = 1 };
  filesystem_list = [];
  mount_list = 5 ∷ [];
  root_mount = 5;
  rest = 100;
}

-- /usr//bin/ spells two names.
abbrev usr : CString
usr = b'u' ∷ b's' ∷ b'r' ∷ []

abbrev bin : CString
bin = b'b' ∷ b'i' ∷ b'n' ∷ []

abbrev slash : CString
slash = b'/' ∷ []

usr_bin : CString
usr_bin = slash ++ (usr ++ ((b'/' ∷ slash) ++ (bin ++ slash)))

usr-IsComponent : IsComponent usr
usr-IsComponent = record { not_empty = omega arith; short = omega arith; bytes = ground arith }

bin-IsComponent : IsComponent bin
bin-IsComponent = record { not_empty = omega arith; short = omega arith; bytes = ground arith }

usr_bin-Spells : Spells usr_bin (usr ∷ bin ∷ [])
unfolding usr_bin
usr_bin-Spells =
    next slash usr ((b'/' ∷ slash) ++ (bin ++ slash)) (bin ∷ []) (refl, tt) usr-IsComponent refl
      (next (b'/' ∷ slash) bin slash [] (refl, (refl, tt)) bin-IsComponent refl
        (done slash (refl, tt)))

toy-HasRoot : HasRoot toy toy_world 7
toy-HasRoot = record {
  mounted = λ e. omega arith;
  has_sb = λ e. omega arith;
  is_root = refl;
  not_null = λ e. omega arith;
}

starts : slash_first usr_bin ≡ true
unfolding usr_bin
starts = refl

path_lookup-Spells_example :
    path_lookup toy usr_bin toy_world
    ≡ some (walk_names toy 7 (usr ∷ bin ∷ []) (inode_get toy 7 toy_world))
path_lookup-Spells_example =
    path_lookup-Spells toy usr_bin (usr ∷ bin ∷ []) toy_world 7 usr_bin-Spells starts toy-HasRoot

-- The inode that it finds.
found : (walk_names toy 7 (usr ∷ bin ∷ []) (inode_get toy 7 toy_world)).0 ≡ 733
unfolding step inode_get walk_names inode_put
found = refl

path_lookup-total_example : (r : ℕ × World ℕ) × (path_lookup toy usr_bin toy_world ≡ some r)
path_lookup-total_example = path_lookup-total toy usr_bin toy_world

toy-KeepsMounts : KeepsMounts toy
toy-KeepsMounts = record {
  mounting = λ fs dev w. record { list_same = refl; root_same = refl };
  syncing = λ t sb f w e. absurd cc;
  putting = λ t sb f w e. absurd cc;
  releasing = λ t p f w e. absurd cc;
}

toy-RootListed : RootListed ℕ toy_world
toy-RootListed = record { listed = inr (inl refl) }

mount-RootListed_example : RootListed ℕ (mount toy 16 ext2_name 0 toy_world).1
mount-RootListed_example =
    mount-RootListed toy toy-KeepsMounts 16 ext2_name 0 toy_world toy-RootListed

umount-RootListed_example : RootListed ℕ (umount toy 5 toy_world).1
umount-RootListed_example = umount-RootListed toy toy-KeepsMounts 5 toy_world toy-RootListed

accepted : (register_filesystem toy 31 toy_world).0 ≡ 0
unfolding register_filesystem find_type
accepted = refl

-- A relative path.
operations-IsBad_example :
    (create_file toy usr toy_world ≡ some (fs_err_inval, toy_world))
    × (remove_file toy usr toy_world ≡ some (fs_err_inval, toy_world))
    × (create_dir toy usr toy_world ≡ some (fs_err_inval, toy_world))
    × (remove_dir toy usr toy_world ≡ some (fs_err_inval, toy_world))
operations-IsBad_example = operations-IsBad toy usr toy_world (inl refl)

toy-ReadsAtMost : ReadsAtMost toy 3
unfolding file_read
toy-ReadsAtMost = record { bound = λ buf count w p. bounded buf count w p }
  where
    bounded :
        (buf : Buf) (count : ℕ) (w : World ℕ)
        → is_positive (file_read toy 3 buf count w).0 ≡ true
        → (file_read toy 3 buf count w).0 ≤ count
    bounded buf count w p = elim (Bool-cases ((w.files 3).inode == 0)) [
      | inl t ↦ absurd (false≢true (rw t at p))
      | inr f ↦ elim (Bool-cases (table_of toy 3 w == 0)) [
        | inl t ↦ absurd (false≢true (rw (f, t) at p))
        | inr g ↦ rw (f, g) (ground arith)
      ]
    ]

-- Reading 12 bytes, five at a time.
read_loop-Bounded_example :
    (total : ℕ) × (buf : Buf) × (w : World ℕ) × (read_loop toy 12 3 (λ i. 0) 12 0 toy_world
      ≡ some (total, buf, w))
    × (total ≤ 12)
read_loop-Bounded_example =
    read_loop-Bounded toy 3 toy-ReadsAtMost 12 (omega arith) (λ i. 0) toy_world
