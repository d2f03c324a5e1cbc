-- ===== src/Vfs.antt =====
-- src/fs/vfs: the objects of the virtual file system, and what it uses of the rest of the kernel.
-- A pointer is a number, 0 for NULL; the objects behind the pointers stand in the world. A list that is
-- threaded through `next` is a List, its head first.
pub mod Inode
pub mod Superblock
pub mod Filesystem
pub mod Mount
pub mod Dentry
pub mod File
mod Tests
use dvivon_os.Base.Buf.{Buf}
use dvivon_os.Base.{◌-◌, ◌==◌, List, if◌then◌else◌, ◌^◌, Option, ℕ}
use dvivon_os.Str.{CString}

-- `inode_t`
pub record VfsInode : Type 0 where
  pub ino : ℕ
  pub sb : ℕ
  pub mode : ℕ
  pub size : ℕ
  pub uid : ℕ
  pub gid : ℕ
  pub nlink : ℕ
  pub atime : ℕ
  pub mtime : ℕ
  pub ctime : ℕ
  pub blksize : ℕ
  pub blocks : ℕ
  pub flags : ℕ
  pub ref_count : ℕ
  pub fs_data : ℕ
  pub f_ops : ℕ

-- `superblock_t`, with the bytes behind its `type`.
pub record VfsSuperblock : Type 0 where
  pub dev : ℕ
  pub blocksize : ℕ
  pub blocksize_bits : ℕ
  pub flags : ℕ
  pub type_name : ℕ
  pub type_bytes : CString
  pub root : ℕ
  pub fs_data : ℕ
  pub ops : ℕ

-- `mount_t`
pub record MountEntry : Type 0 where
  pub dev : ℕ
  pub fs_type : CString
  pub flags : ℕ
  pub sb : ℕ

-- `dentry_t`, with the bytes behind its `name`.
pub record DirEntry : Type 0 where
  pub name : ℕ
  pub name_bytes : CString
  pub name_len : ℕ
  pub inode : ℕ
  pub ref_count : ℕ
  pub parent : ℕ
  pub fs_data : ℕ

-- `file_t`
pub record OpenFile : Type 0 where
  pub inode : ℕ
  pub flags : ℕ
  pub offset : ℕ
  pub ref_count : ℕ

-- The objects, the static variables of filesystem.c and mount.c, and the state of the heap, the file
-- systems and the devices.
pub record World (S : Type 0) : Type 0 where
  pub inodes : ℕ → VfsInode
  pub supers : ℕ → VfsSuperblock
  pub mounts : ℕ → MountEntry
  pub dentries : ℕ → DirEntry
  pub files : ℕ → OpenFile
  pub filesystem_list : List ℕ
  pub mount_list : List ℕ
  pub root_mount : ℕ
  pub rest : S

-- `fs_stat_t`
pub record FsStat : Type 0 where
  pub ino : ℕ
  pub mode : ℕ
  pub size : ℕ
  pub uid : ℕ
  pub gid : ℕ
  pub nlink : ℕ
  pub atime : ℕ
  pub mtime : ℕ
  pub ctime : ℕ
  pub blksize : ℕ
  pub blocks : ℕ

-- `file_ops_t` over a state: none is a NULL member. An `int` result is its 32 bits.
pub record FileOps (W : Type 0) : Type 0 where
  pub lookup : Option (ℕ → CString → W → ℕ × W)
  pub mkdir : Option (ℕ → CString → ℕ → W → ℕ × W)
  pub rmdir : Option (ℕ → CString → W → ℕ × W)
  pub create : Option (ℕ → CString → ℕ → W → ℕ × W)
  pub unlink : Option (ℕ → CString → W → ℕ × W)
  pub read : Option (ℕ → Buf → ℕ → ℕ → W → ℕ × Buf × W)
  pub write : Option (ℕ → Buf → ℕ → ℕ → W → ℕ × W)
  pub stat : Option (ℕ → FsStat → W → ℕ × FsStat × W)
  pub release : Option (ℕ → W → W)

-- The members of `superblock_ops_t` that the virtual file system calls.
pub record SuperOps (W : Type 0) : Type 0 where
  pub sync : Option (ℕ → W → ℕ × W)
  pub put_superblock : Option (ℕ → W → W)

-- `filesystem_type_t`; no name is a NULL one.
pub record FsType (W : Type 0) : Type 0 where
  pub name : Option CString
  pub mount : ℕ → W → ℕ × W

-- The heap, and the constant tables of operations behind their pointers.
pub record Kernel : Type 1 where
  pub State : Type 0
  pub kmalloc : State → ℕ → ℕ × State
  pub kfree : State → ℕ → State
  pub file_ops : ℕ → FileOps (World State)
  pub super_ops : ℕ → SuperOps (World State)
  pub fs_types : ℕ → FsType (World State)
  -- `dev->major`
  pub major : ℕ → ℕ

-- -1 as an `int`.
abbrev pub vfs_error : ℕ
vfs_error = 2 ^ 32 - 1

module _ (k : Kernel) where
  -- `kmalloc` and `kfree` on the world.
  abbrev pub alloc : ℕ → World k.State → ℕ × World k.State
  alloc n w = let (p, s) = k.kmalloc w.rest n in (p, record w { rest = s })

  abbrev pub release : ℕ → World k.State → World k.State
  release p w = record w { rest = k.kfree w.rest p }

  -- `if (p) kfree(p);`
  abbrev pub release_if : ℕ → World k.State → World k.State
  release_if p w = if p == 0 then w else release p w
