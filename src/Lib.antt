-- ===== src/Lib.antt =====
-- DvivonOS, an operating system kernel for the i686: a verification of its memory, storage, file system,
-- scheduling, keyboard, disk and screen code.
--
-- The kernel boots from the bootloader, sets up physical memory (src/kernel/memory/pmm.c), virtual
-- memory and a heap, and mounts an ext2 volume (src/fs/ext2) below a virtual file system
-- (src/fs/vfs) over a block device. src/lib holds the string routines that all of it uses. The ext2 code
-- calls the block device and the heap for every operation; it keeps the superblock and the
-- group descriptors in memory and writes them back after each change. src/lib/fs.c offers files and
-- directories by path to the programs. The timer interrupt drives the scheduler's ring of processes, and
-- the keyboard interrupt fills a queue of key events that the programs read.
--
-- Base: tests on native numbers, bits of words (Base/Bits), memory by bytes with little-endian words
-- (Base/Buf), bounded search (Base/Search).
--
-- Pmm: src/kernel/memory/pmm.c. `alloc_page`, `free_page`, `init` are pmm_alloc_page, pmm_free_page and
-- pmm_init; the static variables are the record Pmm. The search loop has fuel `usable_end_words`, one
-- round for each word of the ring; the loop over the memory map has its fuel as an argument, and one
-- round more than the map has entries is enough; the loop over the kernel's pages has one round for
-- each page and one more.
--
-- KernelHeap: src/kernel/memory/heap-allocator.c, on the aligned 32-bit words of memory. kmalloc has fuel for
-- the pages that it adds and for its walks along the free list.
--
-- Str: src/lib/string.c, function by function. A string is the list of its bytes before the end of its
-- array.
--
-- Ext2/Platform: the block device's operations and kmalloc, kfree as parameters, and the device that
-- does not fail as a named assumption. Ext2/Ram instantiates both.
--
-- BlockDevice: src/drivers/block_device.c, a pointer being a number and 0 for NULL.
--
-- Ext2/Layout, Ext2/Entry: the packed structures of src/include/fs/ext2/ext2.h at their byte offsets.
--
-- Ext2/State, Ext2/Super: ext2_fs_data_t and the flushing of its tables; Ext2/Mount: the rest of
-- src/fs/ext2/superblock.c. A shift count is taken modulo 32, as the processor does.
--
-- Ext2/Bitmap: the two pairs of bitmap operations of src/fs/ext2/block.c and src/fs/ext2/inode.c over
-- one parameter, blocks or inodes; the loop over the groups has one round for each group.
--
-- Ext2/Map, Ext2/Truncate: the block map and truncation of src/fs/ext2/block.c. Ext2/Inode:
-- src/fs/ext2/inode.c. Ext2/Dir and Ext2/Dir/Ops: src/fs/ext2/directory.c; a walk over a
-- block has fuel block size, and each entry is at least one byte long. Ext2/File: reading, writing and
-- chmod of src/fs/ext2/ext2_ops.c; a loop has fuel count, since each round moves at least one byte.
--
-- KeyCodes, Keyboard: src/drivers/keyboard.c, the byte that the port gives being an argument. Keyboard/Queue
-- reads the ring of 256 events as a list.
--
-- Timer: src/kernel/time/time.c; the loop of the interrupt has fuel 16, the size of the table.
--
-- Scheduler: src/kernel/scheduler/scheduler.c without the building of processes. A loop along `next` has
-- fuel for the number of processes; on a ring that is enough. What stands behind a switch of stacks is
-- not run by the process that switches, so that process_exit ends in one of three outcomes.
--
-- Vfs and its children: src/fs/vfs, file by file. The objects behind the pointers stand in a record World;
-- the heap and the tables of operations are a record Kernel, which stands for whatever file system is
-- mounted. The resolution of a path has one round of fuel for each byte and one more.
--
-- FsLib, FsLib/Access, FsLib/Listing: src/lib/fs.c; reading a file has fuel for the size of the buffer, and
-- listing has one round for each byte read and one more.
--
-- Vmm: src/kernel/memory/vmm.c over the page allocator. The memory at virtual addresses is a parameter; Vmm/Walk
-- says how the processor translates, without the cache of translations, and Vmm/Windows derives the windows
-- of the recursive mapping. The search for a kernel page has fuel 2^20, one round for each page of 4 GiB; it
-- ends in a page fault where the entry of a page is stored to a page table that is not there. In the other
-- functions the page table is there, by an assumption or because they have made it.
--
-- Ata: src/drivers/disk/ata.c. The ports, the halting of the processor and the interrupts are a parameter; Ata/Disk
-- states what READ SECTORS relies on, with an interrupt that may come directly behind the command or later, and
-- with one assumption on the speed of the disk, that none comes directly behind the last word of a sector
-- but the last, where the driver would lose it; Ata/Ram is a disk that does so. The wait for an interrupt
-- has fuel for the times that other interrupts wake the processor, which the code does not bound; the loop
-- over the chunks has fuel count, since each moves at least one sector.
--
-- Vga, Stdio, Terminal: src/drivers/vga.c, src/lib/stdio.c and src/prog/terminal.c. The screen calls the handler of a
-- full screen, printf prints through the functions of an interface, and the terminal sets both. A number has room
-- for 20 digits, the size of the buffer of printf.
--
-- A scratch block that a function allocates, uses and frees is a value; its pointer matters only for
-- the heap. A string, a buffer or an ext2 structure that is passed is there: the tests for NULL that refuse
-- it at the start of a function are left out. The pointers of the VFS, the scheduler and the heap can be 0.
-- A division by 0, which traps in C, yields the result of the native division.
--
-- Not modelled: the assembly code and the tables of the processor; the building and loading of processes, the
-- system calls and the shell. The messages that the code prints are left out, but for the terminal's
-- welcome.
pub mod Base
pub mod Pmm
pub mod KernelHeap
pub mod Vmm
pub mod Str
pub mod Ext2
pub mod BlockDevice
pub mod Ata
pub mod KeyCodes
pub mod Keyboard
pub mod Timer
pub mod Scheduler
pub mod Vfs
pub mod Vga
pub mod Stdio
pub mod Terminal
pub mod FsLib
