-- ===== src/Ext2/Platform.antt =====
-- What the ext2 code uses and does not implement: the operations of a `block_device_t` and the
-- kernel heap.
-- A scratch block that a function allocates, uses and frees itself is its bytes, `memory h p`, and
-- the pointer p with which it is freed.
use dvivon_os.Base.{◌==◌, if◌then◌else◌, ◌<◌, ◌≡◌, ℕ}
use dvivon_os.Base.Buf.{Buf}

pub record Platform : Type 1 where
  pub Dev : Type 0
  pub Heap : Type 0
  -- The returned status, 0 for success, and the buffer afterwards.
  pub read_block : Dev → ℕ → Buf → ℕ × Buf
  pub write_block : Dev → ℕ → Buf → ℕ × Dev
  -- The pointer, 0 for NULL.
  pub kmalloc : Heap → ℕ → ℕ × Heap
  pub kfree : Heap → ℕ → Heap
  pub memory : Heap → ℕ → Buf

-- A device of blocks of `bs` bytes on which no transfer fails: a read gives the bytes of the block,
-- and a write replaces those of its block and of no other.
pub record Reliable (pf : Platform) (bs : ℕ) : Type 0 where
  pub content : pf.Dev → ℕ → Buf
  pub read_status : (d : pf.Dev) (b : ℕ) (buf : Buf) → (pf.read_block d b buf).0 ≡ 0
  pub write_status : (d : pf.Dev) (b : ℕ) (buf : Buf) → (pf.write_block d b buf).0 ≡ 0
  pub read_bytes :
      (d : pf.Dev) (b : ℕ) (buf : Buf) (i : ℕ)
      → i < bs
      → (pf.read_block d b buf).1 i ≡ content d b i
  pub write_bytes :
      (d : pf.Dev) (b : ℕ) (buf : Buf) (c i : ℕ)
      → i < bs
      → content (pf.write_block d b buf).1 c i ≡ (if c == b then buf i else content d c i)
