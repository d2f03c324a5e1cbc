-- ===== src/Ext2/File/Length.antt =====
-- The length of what `ext2_read`, src/fs/ext2/ext2_ops.c, returns.
use dvivon_os.Base.{
  zero, sym, subst, ◌∙◌, ==_of_ne, ltb→lt, inl, ◌==◌, ltb→ge, ◌||◌, inr, leb, Bool-cases, ◌/◌, ◌-◌,
  ltb, ◌%◌, if◌then◌else◌, suc, arith, ◌≢◌, ◌^◌, ◌≡◌, ◌+◌, ◌≤◌, ◌<◌, ℕ,
}
use dvivon_os.Str.{memcpy, memset}
use dvivon_os.Ext2.Map.Heap.{resolve_block_num-OnlyHeap}
use dvivon_os.Ext2.Map.{resolve_block_num}
use dvivon_os.Ext2.State.{Fs}
use dvivon_os.Base.Buf.{Buf}
use dvivon_os.Ext2.Inode.{Inode}
use dvivon_os.Ext2.File.{read, read_loop}
use dvivon_os.Ext2.Platform.{Platform}

module _ (pf : Platform) where
  read_loop-length :
      (fuel : ℕ) (inode : Buf) (count offset done : ℕ) (buf out : Buf) (s : Fs pf)
      → 0 < s.block_size
      → done ≤ count
      → count ≤ done + fuel
      → (read_loop pf fuel inode count offset done buf out s).0 ≡ count
  unfolding read_loop
  read_loop-length zero inode count offset done buf out s size le enough = omega arith
  read_loop-length (suc fuel) inode count offset done buf out s size le enough =
      let bs = s.block_size in
      let pos = (offset + done) % 2 ^ 32 in
      let avail = bs - pos % bs in
      let chunk = if ltb (count - done) avail then count - done else avail in
      let (phys, s₁) = resolve_block_num pf inode (pos / bs) bs s in
      let same = (resolve_block_num-OnlyHeap pf inode (pos / bs) bs s).tables.block_size in
      elim (Bool-cases (ltb done count)) [
        | inr f ↦ rw f (omega (arith, ltb→ge done count f))
        | inl t ↦
            let some_left = ltb→lt done count t in
            let progress : (0 < chunk) × (done + chunk ≤ count) = (ground arith, ground arith) in
            let again = λ (buf' out' : Buf).
              read_loop-length fuel inode count offset (done + chunk) buf' out' s₁
                (subst (λ n. 0 < n) (sym same) size) progress.1 (omega (arith, progress.0)) in
            elim (Bool-cases (phys == 0)) [
              | inl z ↦ rw (t, z) (again buf (memset out done 0 chunk))
              | inr nz ↦
                  let read = (pf.read_block s₁.dev phys buf).1 in
                  rw (t, nz) (again read (memcpy out done read (pos % bs) chunk))
            ]
      ]

  -- With blocks of some size, memory for the scratch block, and an offset and count whose sum fits 32
  -- bits, `ext2_read` returns the number of bytes asked for, or of those that the file has from the
  -- offset on, whichever is less, also where the device fails to read a block.
  pub read-length :
      (i : Inode) (out : Buf) (count offset : ℕ) (s : Fs pf)
      → 0 < s.block_size
      → offset + count < 2 ^ 32
      → (pf.kmalloc s.heap s.block_size).0 ≢ 0
      → (read pf i out count offset s).0
        ≡ (if ltb count (i.size - offset) then count else i.size - offset)
  unfolding read
  read-length i out count offset s size fits memory =
      let clamped = if ltb i.size ((offset + count) % 2 ^ 32) then i.size - offset else count in
      elim (Bool-cases (leb i.size offset || (clamped == 0))) [
        | inl t ↦ rw t (ground arith)
        | inr f ↦
            rw (f, ==_of_ne _ _ memory)
              (read_loop-length clamped i.disk_inode clamped offset 0 _ out _ size (omega arith)
                  (omega arith)
                ∙ ground arith)
      ]
