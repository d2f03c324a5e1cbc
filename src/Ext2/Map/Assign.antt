-- ===== src/Ext2/Map/Assign.antt =====
-- Lemmas on the singly indirect branch of `ext2_assign_block_num` and `ext2_resolve_block_num`,
-- src/fs/ext2/block.c.
use dvivon_os.Base.{
  ==_iff, ap, sym, inr, inl, ==_of_ne, ◌==◌, Bool-cases, refl, ==_refl, ◌∙◌, arith, ◌^◌, ◌<◌, ◌≢◌,
  ◌≡◌, ◌≤◌, ◌+◌, ◌*◌, ℕ,
}
use dvivon_os.Ext2.Map.{set_entry, ensure_pointer, entry, resolve_single, assign_single}
use mathlib.Core.Bool.{false≢true}
use dvivon_os.Base.Buf.{get32-put32_self, get32-congr, Buf}
use dvivon_os.Ext2.Layout.{i_block}
use dvivon_os.Ext2.State.{Fs}
use dvivon_os.Ext2.Platform.{Reliable, Platform}

module _ (pf : Platform) (bs : ℕ) (ok : Reliable pf bs) where
  -- An entry of an indirect block that was just written.
  pub entry-written :
      (d : pf.Dev) (b : ℕ) (ind buf : Buf) (l : ℕ)
      → 4 * l + 4 ≤ bs
      → entry (pf.read_block (pf.write_block d b ind).1 b buf).1 l ≡ entry ind l
  entry-written d b ind buf l room = get32-congr _ ind (4 * l) (λ j lo hi.
      ok.read_bytes (pf.write_block d b ind).1 b buf j (omega arith)
      ∙ ok.write_bytes d b ind b j (omega arith)
      ∙ rw (==_refl b) refl)

  resolve_single-value :
      (inode : Buf) (l : ℕ) (s : Fs pf)
      → i_block inode 12 ≢ 0
      → (pf.kmalloc s.heap bs).0 ≢ 0
      → (resolve_single pf inode l bs s).0
        ≡ entry
            (pf.read_block s.dev
              (i_block inode 12)
              (pf.memory (pf.kmalloc s.heap bs).1 (pf.kmalloc s.heap bs).0)).1
            l
  unfolding resolve_single
  resolve_single-value inode l s nonzero memory =
      rw (==_of_ne _ _ nonzero, ==_of_ne _ _ memory) refl

  module _ (inode : Buf) (l phys : ℕ) (s : Fs pf) where
    abbrev inode₁ : Buf
    inode₁ = (ensure_pointer pf 12 inode s).0

    abbrev s₁ : Fs pf
    s₁ = (ensure_pointer pf 12 inode s).1

    abbrev scratch : Buf
    scratch = pf.memory (pf.kmalloc s₁.heap bs).1 (pf.kmalloc s₁.heap bs).0

    abbrev ind : Buf
    ind = (pf.read_block s₁.dev (i_block inode₁ 12) scratch).1

    abbrev stored : Fs pf
    stored = record s₁ {
      dev = (pf.write_block s₁.dev (i_block inode₁ 12) (set_entry ind l phys)).1;
      heap = pf.kfree (pf.kmalloc s₁.heap bs).1 (pf.kmalloc s₁.heap bs).0;
    }

    abbrev Done : Type 0
    Done = (i_block inode₁ 12 ≢ 0) × (assign_single pf inode l phys bs s ≡ (0, inode₁, stored))

    assign_single-Done : (assign_single pf inode l phys bs s).0 ≡ 0 → Done
    unfolding assign_single
    assign_single-Done e = elim (Bool-cases (i_block inode₁ 12 == 0)) [
      | inl t ↦ absurd (omega (arith, rw t at e))
      | inr f ↦ elim (Bool-cases ((pf.kmalloc s₁.heap bs).0 == 0)) [
        | inl t ↦ absurd (omega (arith, rw (f, t) at e))
        | inr g ↦ ((λ z. false≢true (sym f ∙ (==_iff _ _).1 z)), rw (f, g) refl)
      ]
    ]

    pub resolve-assign_single :
        (assign_single pf inode l phys bs s).0 ≡ 0
        → (pf.kmalloc (assign_single pf inode l phys bs s).2.heap bs).0 ≢ 0
        → 4 * l + 4 ≤ bs
        → phys < 2 ^ 32
        → (resolve_single pf
            (assign_single pf inode l phys bs s).1
            l
            bs
            (assign_single pf inode l phys bs s).2).0
          ≡ phys
    resolve-assign_single e memory room small =
        let (nonzero, same) = assign_single-Done e in
        rw same (
          resolve_single-value inode₁ l stored nonzero
            (λ z. memory (ap (λ r. (pf.kmalloc r.2.heap bs).0) same ∙ z))
          ∙ entry-written s₁.dev (i_block inode₁ 12) (set_entry ind l phys) _ l room
          ∙ get32-put32_self ind (4 * l) phys
          ∙ omega (arith))
