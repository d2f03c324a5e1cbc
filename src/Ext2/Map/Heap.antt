-- ===== src/Ext2/Map/Heap.antt =====
-- What `ext2_resolve_block_num`, src/fs/ext2/block.c, changes of the state.
use dvivon_os.Base.{refl, inr, inl, ltb, Bool-cases, ◌^◌, ◌%◌, ◌*◌, ◌/◌, ◌-◌, arith, ℕ, ◌≡◌}
use dvivon_os.Ext2.Super.{SameTables}
use dvivon_os.Base.Buf.{Buf}
use dvivon_os.Ext2.State.{Fs}
use dvivon_os.Ext2.Map.{resolve_block_num, resolve_double, resolve_single, resolve_triple}
use dvivon_os.Ext2.Platform.{Platform}

module _ (pf : Platform) where
  pub record OnlyHeap (s s' : Fs pf) : Type 0 where
    pub dev : s'.dev ≡ s.dev
    pub tables : SameTables pf s s'

  resolve_single-OnlyHeap :
      (inode : Buf) (l bs : ℕ) (s : Fs pf) → OnlyHeap s (resolve_single pf inode l bs s).1
  unfolding resolve_single
  resolve_single-OnlyHeap inode l bs s = ground arith

  resolve_double-OnlyHeap :
      (inode : Buf) (l bs : ℕ) (s : Fs pf) → OnlyHeap s (resolve_double pf inode l bs s).1
  unfolding resolve_double
  resolve_double-OnlyHeap inode l bs s = ground arith

  resolve_triple-OnlyHeap :
      (inode : Buf) (l bs : ℕ) (s : Fs pf) → OnlyHeap s (resolve_triple pf inode l bs s).1
  unfolding resolve_triple
  resolve_triple-OnlyHeap inode l bs s = ground arith

  pub resolve_block_num-OnlyHeap :
      (inode : Buf) (l bs : ℕ) (s : Fs pf) → OnlyHeap s (resolve_block_num pf inode l bs s).1
  unfolding resolve_block_num
  resolve_block_num-OnlyHeap inode l bs s =
      let l₁ = l - 12 in
      let l₂ = l₁ - bs / 4 in
      let square = bs / 4 * (bs / 4) % 2 ^ 32 in
      let same : OnlyHeap s s = record {
        dev = refl;
        tables = record { sb = refl; group_desc = refl; groups_count = refl; block_size = refl };
      } in
      elim (Bool-cases (ltb l 12)) [
        | inl t ↦ rw t same
        | inr f ↦ elim (Bool-cases (ltb l₁ (bs / 4))) [
          | inl t ↦ rw (f, t) (resolve_single-OnlyHeap inode l₁ bs s)
          | inr f₁ ↦ elim (Bool-cases (ltb l₂ square)) [
            | inl t ↦ rw (f, f₁, t) (resolve_double-OnlyHeap inode l₂ bs s)
            | inr f₂ ↦ rw (f, f₁, f₂) (resolve_triple-OnlyHeap inode (l₂ - square) bs s)
          ]
        ]
      ]
