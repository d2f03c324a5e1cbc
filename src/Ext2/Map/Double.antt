-- ===== src/Ext2/Map/Double.antt =====
-- Lemmas on the doubly indirect branch of `ext2_assign_block_num` and `ext2_resolve_block_num`,
-- src/fs/ext2/block.c.
use dvivon_os.Ext2.Map.Assign.{entry-written}
use dvivon_os.Base.{
  ==_iff, ◌%◌, ◌/◌, ap, sym, inr, inl, ==_of_ne, ◌==◌, Bool-cases, refl, ◌∙◌, arith, ◌^◌, ◌<◌, ◌≢◌,
  ◌≡◌, ◌≤◌, ◌+◌, ◌*◌, ℕ,
}
use dvivon_os.Ext2.Map.{
  assign_double, alloc_indirect_block, ensure_entry, resolve_double, set_entry, ensure_pointer,
  entry,
}
use mathlib.Core.Bool.{false≢true}
use dvivon_os.Ext2.Super.{write_frame}
use dvivon_os.Base.Buf.{get32-put32_self, get32-congr, Buf}
use dvivon_os.Ext2.Layout.{i_block}
use dvivon_os.Ext2.State.{Fs}
use dvivon_os.Ext2.Platform.{Reliable, Platform}

div_lt : (l n : ℕ) → l < n * n → l / n < n
div_lt l n h = grind arith

square_pos : (l n : ℕ) → l < n * n → 0 < n
square_pos l n h = grind arith

module _ (pf : Platform) (bs : ℕ) (ok : Reliable pf bs) where
  outer : {l : ℕ} → l < bs / 4 * (bs / 4) → 4 * (l / (bs / 4)) + 4 ≤ bs
  outer {l} h = omega (arith, div_lt l (bs / 4) h)

  inner : {l : ℕ} → l < bs / 4 * (bs / 4) → 4 * (l % (bs / 4)) + 4 ≤ bs
  inner {l} h = omega (arith, square_pos l (bs / 4) h)

  resolve_double-value :
      (inode : Buf) (l : ℕ) (s : Fs pf)
      → i_block inode 13 ≢ 0
      → (pf.kmalloc s.heap bs).0 ≢ 0
      → (let ind =
            (pf.read_block s.dev
              (i_block inode 13)
              (pf.memory (pf.kmalloc s.heap bs).1 (pf.kmalloc s.heap bs).0)).1 in
          let singly = entry ind (l / (bs / 4)) in
          singly ≢ 0
          → (resolve_double pf inode l bs s).0
            ≡ entry (pf.read_block s.dev singly ind).1 (l % (bs / 4)))
  unfolding resolve_double
  resolve_double-value inode l s nonzero memory nonzero₁ =
      rw (==_of_ne _ _ nonzero, ==_of_ne _ _ memory, ==_of_ne _ _ nonzero₁) refl

  -- An entry of a block that a write to another block leaves alone.
  entry-other :
      (d : pf.Dev) (b c : ℕ) (ind buf : Buf) (l : ℕ)
      → 4 * l + 4 ≤ bs
      → c ≢ b
      → entry (pf.read_block (pf.write_block d b ind).1 c buf).1 l
        ≡ entry (pf.read_block d c buf).1 l
  entry-other d b c ind buf l room ne = get32-congr _ _ (4 * l) (λ j lo hi.
      ok.read_bytes (pf.write_block d b ind).1 c buf j (omega arith)
      ∙ write_frame pf bs ok d b ind c j (omega arith) ne
      ∙ sym (ok.read_bytes d c buf j (omega arith)))

  entry-scratch :
      (d : pf.Dev) (b : ℕ) (buf buf' : Buf) (l : ℕ)
      → 4 * l + 4 ≤ bs
      → entry (pf.read_block d b buf).1 l ≡ entry (pf.read_block d b buf').1 l
  entry-scratch d b buf buf' l room = get32-congr _ _ (4 * l) (λ j lo hi.
      ok.read_bytes d b buf j (omega arith) ∙ sym (ok.read_bytes d b buf' j (omega arith)))

  -- The entry of the doubly indirect block stands on the device.
  ensure_entry-stored :
      (b i : ℕ) (s : Fs pf) (buf buf' : Buf)
      → 4 * i + 4 ≤ bs
      → (let r = ensure_entry pf b i (pf.read_block s.dev b buf).1 s in
          entry r.0 i ≢ 0 → entry (pf.read_block r.1.dev b buf').1 i ≡ entry r.0 i)
  unfolding ensure_entry
  ensure_entry-stored b i s buf buf' room nonzero =
      let ind = (pf.read_block s.dev b buf).1 in
      let (new, s₁) = alloc_indirect_block pf s in
      let ind₁ = set_entry ind i new in
      elim (Bool-cases (entry ind i == 0)) [
        | inl t ↦ elim (Bool-cases (entry ind₁ i == 0)) [
          | inl u ↦ absurd ((rw (t, u) at nonzero) ((==_iff _ _).0 u))
          | inr f ↦ rw (t, f) (entry-written pf bs ok s₁.dev b ind₁ buf' i room)
        ]
        | inr f ↦ rw f (entry-scratch s.dev b buf' buf i room)
      ]

  module _ (inode : Buf) (l phys : ℕ) (s : Fs pf) where
    abbrev pub double₁ : Buf
    double₁ = (ensure_pointer pf 13 inode s).0

    abbrev t₁ : Fs pf
    t₁ = (ensure_pointer pf 13 inode s).1

    abbrev p₁ : ℕ
    p₁ = (pf.kmalloc t₁.heap bs).0

    abbrev heap₁ : pf.Heap
    heap₁ = (pf.kmalloc t₁.heap bs).1

    abbrev table : Buf × Fs pf
    table =
        ensure_entry pf (i_block double₁ 13) (l / (bs / 4))
          (pf.read_block t₁.dev (i_block double₁ 13) (pf.memory heap₁ p₁)).1
          (record t₁ { heap = heap₁ })

    -- The singly indirect block that the entry goes to.
    abbrev pub singly : ℕ
    singly = entry table.0 (l / (bs / 4))

    abbrev leaf : Buf
    leaf = set_entry (pf.read_block table.1.dev singly table.0).1 (l % (bs / 4)) phys

    abbrev stored₂ : Fs pf
    stored₂ = record table.1 {
      dev = (pf.write_block table.1.dev singly leaf).1;
      heap = pf.kfree table.1.heap p₁;
    }

    assign_double_lem :
        (assign_double pf inode l phys bs s).0 ≡ 0
        → (i_block double₁ 13 ≢ 0)
          × (singly ≢ 0)
          × (assign_double pf inode l phys bs s ≡ (0, double₁, stored₂))
    unfolding assign_double
    assign_double_lem e = elim (Bool-cases (i_block double₁ 13 == 0)) [
      | inl t ↦ absurd (omega (arith, rw t at e))
      | inr f ↦ elim (Bool-cases (p₁ == 0)) [
        | inl t ↦ absurd (omega (arith, rw (f, t) at e))
        | inr g ↦ elim (Bool-cases (singly == 0)) [
          | inl t ↦ absurd (omega (arith, rw (f, g, t) at e))
          | inr h ↦ (
            (λ z. false≢true (sym f ∙ (==_iff _ _).1 z)),
            (λ z. false≢true (sym h ∙ (==_iff _ _).1 z)),
            rw (f, g, h) refl,
          )
        ]
      ]
    ]

    pub resolve-assign_double :
        (assign_double pf inode l phys bs s).0 ≡ 0
        → (pf.kmalloc (assign_double pf inode l phys bs s).2.heap bs).0 ≢ 0
        → l < bs / 4 * (bs / 4)
        → i_block double₁ 13 ≢ singly
        → phys < 2 ^ 32
        → (resolve_double pf
            (assign_double pf inode l phys bs s).1
            l
            bs
            (assign_double pf inode l phys bs s).2).0
          ≡ phys
    resolve-assign_double e memory room apart small =
        let (nonzero, nonzero₁, same) = assign_double_lem e in
        let i = l / (bs / 4) in
        let b = i_block double₁ 13 in
        let buf = pf.memory (pf.kmalloc stored₂.heap bs).1 (pf.kmalloc stored₂.heap bs).0 in
        let found : entry (pf.read_block stored₂.dev b buf).1 i ≡ singly =
          entry-other table.1.dev singly b leaf buf i (outer room) apart
          ∙ ensure_entry-stored b i (record t₁ { heap = heap₁ }) (pf.memory heap₁ p₁) buf
              (outer room) nonzero₁ in
        rw same (
          resolve_double-value double₁ l stored₂ nonzero
            (λ z. memory (ap (λ r. (pf.kmalloc r.2.heap bs).0) same ∙ z))
            (λ z. nonzero₁ (sym found ∙ z))
          ∙ ap
              (λ c.
                entry (pf.read_block stored₂.dev c (pf.read_block stored₂.dev b buf).1).1
                  (l % (bs / 4)))
              found
          ∙ entry-written pf bs ok table.1.dev singly leaf _ (l % (bs / 4)) (inner room)
          ∙ get32-put32_self _ (4 * (l % (bs / 4))) phys
          ∙ omega (arith))
