-- ===== src/Ext2/Map/RoundTrip.antt =====
-- `ext2_resolve_block_num` after `ext2_assign_block_num`, src/fs/ext2/block.c.
use dvivon_os.Base.{
  ltb→ge, ltb→lt, inr, arith, ◌%◌, ◌∙◌, ◌+◌, inl, ltb, Bool-cases, ◌≢◌, ◌≡◌, ◌^◌, ◌/◌, ◌<◌, ◌-◌,
  ◌≤◌, ℕ, ◌*◌,
}
use dvivon_os.Ext2.Map.Double.{resolve-assign_double, double₁, singly}
use dvivon_os.Ext2.Map.Assign.{resolve-assign_single}
use dvivon_os.Base.Buf.{get32-put32_self, Buf}
use dvivon_os.Ext2.Layout.{i_block}
use dvivon_os.Ext2.State.{Fs}
use dvivon_os.Ext2.Map.{resolve_block_num, assign_block_num}
use dvivon_os.Ext2.Platform.{Reliable, Platform}

square_small : (n : ℕ) → n * n % 2 ^ 32 ≤ n * n
square_small n = grind arith

module _ (pf : Platform) (bs : ℕ) (ok : Reliable pf bs) where
  -- When there is a doubly indirect block: it is not the singly indirect block that it leads to.
  abbrev pub Apart : (inode : Buf) → (logical phys : ℕ) → Fs pf → Type 0
  Apart inode logical phys s =
      let l = logical - 12 - bs / 4 in
      12 + bs / 4 ≤ logical
      → i_block (double₁ pf bs ok inode l phys s) 13 ≢ singly pf bs ok inode l phys s

  -- When `ext2_assign_block_num` succeeds, `ext2_resolve_block_num` on the inode and the device that
  -- it leaves finds the block that was assigned, for direct, singly and doubly indirect blocks of a
  -- file, on a device that does not fail, where blocks have at most 4096 bytes, the block number fits
  -- 32 bits, the scratch block of the second call is there and the doubly indirect block is not
  -- the singly indirect one that it leads to.
  pub resolve-assign :
      (inode : Buf) (logical phys : ℕ) (s : Fs pf)
      → bs ≤ 4096
      → phys < 2 ^ 32
      → (assign_block_num pf inode logical phys bs s).0 ≡ 0
      → (pf.kmalloc (assign_block_num pf inode logical phys bs s).2.heap bs).0 ≢ 0
      → Apart inode logical phys s
      → (resolve_block_num pf
          (assign_block_num pf inode logical phys bs s).1
          logical
          bs
          (assign_block_num pf inode logical phys bs s).2).0
        ≡ phys
  unfolding assign_block_num resolve_block_num
  resolve-assign inode logical phys s size small e memory apart =
      let l₁ = logical - 12 in
      let l₂ = l₁ - bs / 4 in
      elim (Bool-cases (ltb logical 12)) [
        | inl t ↦ rw t (get32-put32_self inode (40 + 4 * logical) phys ∙ omega (arith))
        | inr f ↦ elim (Bool-cases (ltb l₁ (bs / 4))) [
          | inl t ↦
              rw (f, t)
                (resolve-assign_single pf bs ok inode l₁ phys s (rw (f, t) at e)
                  (rw (f, t) at memory) (omega (arith, ltb→lt l₁ (bs / 4) t)) small)
          | inr f₁ ↦ elim (Bool-cases (ltb l₂ (bs / 4 * (bs / 4) % 2 ^ 32))) [
            | inl t ↦
                rw (f, f₁, t)
                  (resolve-assign_double pf bs ok inode l₂ phys s (rw (f, f₁, t) at e)
                    (rw (f, f₁, t) at memory)
                    (omega (arith, ltb→lt l₂ (bs / 4 * (bs / 4) % 2 ^ 32) t, square_small (bs / 4)))
                    (apart (omega (arith, ltb→ge logical 12 f, ltb→ge l₁ (bs / 4) f₁))) small)
            | inr f₂ ↦ absurd (omega (arith, rw (f, f₁, f₂) at e))
          ]
        ]
      ]
