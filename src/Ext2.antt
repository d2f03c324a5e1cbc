-- ===== src/Ext2.antt =====
-- src/fs/ext2: the ext2 file system over a block device and the kernel heap.
pub mod Platform
pub mod Layout
pub mod State
pub mod Super
pub mod Bitmap
pub mod Ram
pub mod Map
pub mod Truncate
pub mod Inode
pub mod Entry
pub mod Dir
pub mod File
pub mod Mount
