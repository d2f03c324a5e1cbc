-- ===== src/Ext2/Inode/Raw.antt =====
-- `ext2_read_inode_raw` after `ext2_write_inode_raw`, src/fs/ext2/inode.c.
use dvivon_os.Str.Memory.{memcpy_lem}
use dvivon_os.Base.{
  ==_refl, inr, arith, refl, ◌∙◌, ==_of_ne, ap, inl, Bool-cases, ◌≢◌, false, ◌<◌, ◌==◌, ◌≡◌, ◌≤◌,
  ◌+◌, ℕ,
}
use dvivon_os.Ext2.Layout.{inode_bytes}
use dvivon_os.Ext2.Inode.{inode_blk, offset_in_block, read_inode_raw, write_inode_raw}
use dvivon_os.Str.{memcpy}
use dvivon_os.Ext2.State.{Fs}
use dvivon_os.Base.Buf.{Buf}
use dvivon_os.Ext2.Platform.{Reliable, Platform}

copied :
    (out : Buf) (d : ℕ) (b : Buf) (o i j k : ℕ)
    → i < 128
    → j ≡ d + i
    → k ≡ o + i
    → memcpy out d b o inode_bytes j ≡ b k
copied out d b o i j k lt e e' = memcpy_lem out d b o 128 j ∙ ground arith

module _ (pf : Platform) (bs : ℕ) (ok : Reliable pf bs) (ino : ℕ) (inode : Buf) (s : Fs pf) where
  abbrev blk : ℕ
  blk = inode_blk pf ino s

  abbrev off : ℕ
  off = offset_in_block pf ino s

  abbrev p : ℕ
  p = (pf.kmalloc s.heap s.block_size).0

  abbrev heap : pf.Heap
  heap = (pf.kmalloc s.heap s.block_size).1

  abbrev before : Buf
  before = (pf.read_block s.dev blk (pf.memory heap p)).1

  abbrev block : Buf
  block = memcpy before off inode 0 inode_bytes

  abbrev stored : Fs pf
  stored = record s { dev = (pf.write_block s.dev blk block).1; heap = pf.kfree heap p }

  write_inode_raw_lem :
      (write_inode_raw pf ino inode s).0 ≡ 0
      → ((ino == 0) ≡ false) × ((write_inode_raw pf ino inode s).1 ≡ stored)
  unfolding write_inode_raw
  write_inode_raw_lem e = elim (Bool-cases (ino == 0)) [
    | inl t ↦ absurd (omega (arith, rw t at e))
    | inr f ↦ elim (Bool-cases (p == 0)) [
      | inl t ↦ absurd (omega (arith, rw (f, t) at e))
      | inr g ↦ (f, rw (f, g, ok.read_status s.dev blk (pf.memory heap p)) refl)
    ]
  ]

  read_inode_raw-value :
      (out : Buf) (t : Fs pf) (i : ℕ)
      → (ino == 0) ≡ false
      → (pf.kmalloc t.heap t.block_size).0 ≢ 0
      → i < 128
      → inode_blk pf ino t ≡ inode_blk pf ino s
      → (let (ret, inode', t') = read_inode_raw pf ino out t in
          (ret ≡ 0)
          × (inode' i
              ≡ (pf.read_block t.dev (inode_blk pf ino t) (
                    pf.memory
                      (pf.kmalloc t.heap t.block_size).1
                      (pf.kmalloc t.heap t.block_size).0)).1
                  (offset_in_block pf ino t + i)))
  unfolding read_inode_raw
  read_inode_raw-value out t i f memory lt same =
      let buf = pf.memory (pf.kmalloc t.heap t.block_size).1 (pf.kmalloc t.heap t.block_size).0 in
      let status = ok.read_status t.dev (inode_blk pf ino t) buf in
      rw (f, ==_of_ne _ _ memory, status)
        (
          refl,
          copied out 0 _ (offset_in_block pf ino t) i i (offset_in_block pf ino t + i) lt
              (omega arith) refl,
        )

  -- On a device that does not fail, an inode that `ext2_write_inode_raw` wrote with status 0 is what
  -- `ext2_read_inode_raw` reads, byte by byte and with status 0, where the inode lies inside its block
  -- and the scratch block of the second call is there.
  pub read-write_inode_raw :
      (out : Buf) (i : ℕ)
      → off + 128 ≤ bs
      → i < 128
      → (write_inode_raw pf ino inode s).0 ≡ 0
      → (pf.kmalloc (write_inode_raw pf ino inode s).1.heap s.block_size).0 ≢ 0
      → (let (ret, inode', s') = read_inode_raw pf ino out (write_inode_raw pf ino inode s).1 in
          (ret ≡ 0) × (inode' i ≡ inode i))
  read-write_inode_raw out i room lt e memory =
      let (f, same) = write_inode_raw_lem e in
      let (status, value) =
        read_inode_raw-value out stored i f
          (λ z. memory (ap (λ t. (pf.kmalloc t.heap s.block_size).0) same ∙ z)) lt refl in
      rw same (
        status,
        value
            ∙ ok.read_bytes stored.dev blk _ (off + i) (omega arith)
            ∙ ok.write_bytes s.dev blk block blk (off + i) (omega arith)
            ∙ rw (==_refl blk) (copied before off inode 0 i (off + i) i lt refl (omega arith)),
      )
