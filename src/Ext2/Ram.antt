-- ===== src/Ext2/Ram.antt =====
-- A platform to run the code on: blocks in memory, and a heap that counts its allocations.
use dvivon_os.Base.{arith, ◌==◌, if◌then◌else◌, refl, ◌+◌, ◌≡◌, ℕ}
use dvivon_os.Base.Buf.{zeros, put16, put32, update, Buf}
use dvivon_os.Ext2.Platform.{Reliable, Platform}
use dvivon_os.Ext2.State.{Fs}

abbrev pub ram : Platform
ram = record {
  Dev = ℕ → Buf;
  Heap = ℕ;
  read_block = λ d b buf. (0, d b);
  write_block = λ d b buf. (0, update d b buf);
  kmalloc = λ h n. (4096 + h, h + 1);
  kfree = λ h p. h;
  memory = λ h p. zeros;
}

pub ram_write :
    (d : ℕ → Buf) (b : ℕ) (buf : Buf) (c i : ℕ)
    → update d b buf c i ≡ (if c == b then buf i else d c i)
ram_write d b buf c i = ground arith

abbrev pub ram-Reliable : (bs : ℕ) → Reliable ram bs
ram-Reliable bs = record {
  content = λ d. d;
  read_status = λ d b buf. refl;
  write_status = λ d b buf. refl;
  read_bytes = λ d b buf i lt. refl;
  write_bytes = λ d b buf c i lt. ram_write d b buf c i;
}

-- One group of 64 blocks of 1024 bytes and 16 inodes, block bitmap in block 3, inode bitmap in block
-- 4, inode table from block 5 on, data from block 7 on; the first 10 blocks and 2 inodes are in use.
abbrev pub small_sb : Buf
small_sb =
    put32 (put32 (put32 (put32 (put32 (put32 (put32 zeros 0 16) 4 65) 12 54) 16 14) 20 1) 32 64) 40
      16

abbrev pub small_gd : Buf
small_gd = put16 (put16 (put32 (put32 (put32 zeros 0 3) 4 4) 8 5) 12 54) 14 14

abbrev pub small_disk : ℕ → Buf
small_disk = update (update (λ b. zeros) 3 (update (update zeros 0 255) 1 3)) 4 (update zeros 0 3)

abbrev pub small : Fs ram
small = record {
  dev = small_disk;
  heap = 0;
  sb = small_sb;
  group_desc = small_gd;
  groups_count = 1;
  block_size = 1024;
}
