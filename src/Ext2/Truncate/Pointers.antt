-- ===== src/Ext2/Truncate/Pointers.antt =====
-- The direct pointers of an inode under `ext2_truncate_inode`, src/fs/ext2/block.c.
use dvivon_os.Base.{
  not, ◌/◌, refl, ◌-◌, ◌<◌, ==_iff, sym, ◌*◌, inr, ap, ◌∙◌, arith, inl, Bool-cases, ◌+◌, ltb, ◌^◌,
  ◌%◌, ◌&&◌, leb, ◌==◌, if◌then◌else◌, ◌≡◌, ◌≤◌, ◌↔◌, ℕ, zero, suc,
}
use native.Mathlib.Nat.{div-lt_iff_lt-mul}
use native.Mathlib.Decide.{dec_le}
use dvivon_os.Ext2.Layout.{i_size, set_i_size, set_i_blocks, set_i_block, i_block}
use dvivon_os.Ext2.Dir.{block_count}
use dvivon_os.Ext2.Truncate.{truncate_indirect, truncate_inode, free_direct}
use dvivon_os.Base.Buf.{get32-put32_ne, get32-put32_self, put32, get32, Buf}
use dvivon_os.Ext2.Bitmap.{free_block}
use dvivon_os.Ext2.State.{Fs}
use dvivon_os.Ext2.Platform.{Platform}

pub i_block-set_i_block :
    (inode : Buf) (i k v : ℕ)
    → i_block (set_i_block inode i v) k ≡ (if i == k then v % 2 ^ 32 else i_block inode k)
i_block-set_i_block inode i k v = elim (Bool-cases (i == k)) [
  | inl e ↦ rw e (
      ap (λ j. get32 (put32 inode (40 + 4 * i) v) (40 + 4 * j)) (sym ((==_iff i k).0 e))
      ∙ get32-put32_self inode (40 + 4 * i) v)
  | inr f ↦ rw f (get32-put32_ne inode (40 + 4 * i) v (40 + 4 * k) (ground arith))
]

range :
    (new old stop k v : ℕ)
    → (k < stop → k < old) × (k < old → k < stop)
    → (if leb new k && ltb k (new + (stop - new)) then 0 else v)
      ≡ (if leb new k && ltb k old then 0 else v)
range new old stop k v h = ground arith

-- The blocks of n bytes are those that start below n.
block_count-le : (n bs k : ℕ) → 0 < bs → n + bs ≤ 2 ^ 32 → (block_count n bs ≤ k) ↔ (n ≤ k * bs)
block_count-le n bs k pos fits =
    let e : (n + bs + 2 ^ 32 - 1) % 2 ^ 32 ≡ n + bs - 1 = omega arith in
    let (to, from) = div-lt_iff_lt-mul {k = bs} {x = n + bs - 1} {y = suc k} pos in
    let m : suc k * bs ≡ k * bs + bs = grind arith in
    rw e (
      (λ h. let lt = to (omega arith) in omega (arith, m)),
      (λ h. let lt = from (omega (arith, m)) in omega arith),
    )

leb-block_count :
    (n bs k : ℕ) → 0 < bs → n + bs ≤ 2 ^ 32 → leb (block_count n bs) k ≡ leb n (k * bs)
leb-block_count n bs k pos fits =
    let (to, from) = block_count-le n bs k pos fits in
    elim (dec_le n (k * bs)) [
      | yes le ↦ let h = from le in ground arith
      | no gt ↦ elim (dec_le (block_count n bs) k) [
        | yes le ↦ absurd (gt (to le))
        | no above ↦ ground arith
      ]
    ]

ltb-block_count :
    (n bs k : ℕ) → 0 < bs → n + bs ≤ 2 ^ 32 → ltb k (block_count n bs) ≡ ltb (k * bs) n
ltb-block_count n bs k pos fits = let e = leb-block_count n bs k pos fits in ground (arith, e)

module _ (pf : Platform) where
  free_direct-pointers :
      (n i : ℕ) (inode : Buf) (s : Fs pf) (k : ℕ)
      → i_block (free_direct pf n i inode s).0 k
        ≡ (if leb i k && ltb k (i + n) then 0 else i_block inode k)
  unfolding free_direct
  free_direct-pointers zero i inode s k = ground arith
  free_direct-pointers (suc n) i inode s k = elim (Bool-cases (i_block inode i == 0)) [
    | inl z ↦ rw z (free_direct-pointers n (i + 1) inode s k ∙ ground arith)
    | inr f ↦ rw f (
        free_direct-pointers n (i + 1) (set_i_block inode i 0) (free_block pf (i_block inode i) s) k
        ∙ ground (arith, i_block-set_i_block inode i k 0))
  ]

  truncate_indirect-pointers :
      (new_blocks : ℕ) (inode : Buf) (s : Fs pf) (k : ℕ)
      → k < 12
      → i_block (truncate_indirect pf new_blocks inode s).0 k ≡ i_block inode k
  unfolding truncate_indirect
  truncate_indirect-pointers new_blocks inode s k lt =
      elim (Bool-cases ((pf.kmalloc s.heap s.block_size).0 == 0)) [
        | inl z ↦ rw z refl
        | inr f ↦ elim (Bool-cases (leb new_blocks 12)) [
          | inl t ↦ rw (f, t) (i_block-set_i_block inode 12 k 0 ∙ ground arith)
          | inr u ↦ rw (f, u) refl
        ]
      ]

  sized-pointers :
      (inode : Buf) (size blocks k : ℕ)
      → i_block (set_i_blocks (set_i_size inode size) blocks) k ≡ i_block inode k
  sized-pointers inode size blocks k =
      get32-put32_ne (set_i_size inode size) 28 blocks (40 + 4 * k) (inr (omega arith))
      ∙ get32-put32_ne inode 4 size (40 + 4 * k) (inr (omega arith))

  -- The new pointers, by the numbers of blocks that the code computes.
  truncate_inode-counted :
      (inode : Buf) (new_size : ℕ) (s : Fs pf) (k : ℕ)
      → k < 12
      → (i_block (truncate_inode pf inode new_size s).0 k ≡ (
          if leb (block_count new_size s.block_size) k
            && ltb k (block_count (i_size inode) s.block_size)
          then 0
          else i_block inode k))
        × (i_size (truncate_inode pf inode new_size s).0 ≡ new_size % 2 ^ 32)
  unfolding truncate_inode
  truncate_inode-counted inode new_size s k lt =
      let old = block_count (i_size inode) s.block_size in
      let new = block_count new_size s.block_size in
      let stop = if ltb old 12 then old else 12 in
      let (inode₁, s₁) = free_direct pf (stop - new) new inode s in
      let direct =
        free_direct-pointers (stop - new) new inode s k ∙ range new old stop k _ (ground arith) in
      let blocks = new * (s.block_size / 512) in
      elim (Bool-cases (ltb 12 old && not (i_block inode₁ 12 == 0))) [
        | inl t ↦ rw t (
          sized-pointers (truncate_indirect pf new inode₁ s₁).0 new_size blocks k
              ∙ truncate_indirect-pointers new inode₁ s₁ k lt
              ∙ direct,
          get32-put32_ne _ 28 blocks 4 (inl (omega arith)) ∙ get32-put32_self _ 4 new_size,
        )
        | inr f ↦ rw f (
          sized-pointers inode₁ new_size blocks k ∙ direct,
          get32-put32_ne _ 28 blocks 4 (inl (omega arith)) ∙ get32-put32_self _ 4 new_size,
        )
      ]

  -- Where neither size is within a block of 2^32, `ext2_truncate_inode` clears the direct pointer of each
  -- block that starts at or behind the new size and below the old one, keeps every other direct
  -- pointer, and stores the new size.
  pub truncate_inode-pointers :
      (inode : Buf) (new_size : ℕ) (s : Fs pf) (k : ℕ)
      → k < 12
      → 0 < s.block_size
      → new_size + s.block_size ≤ 2 ^ 32
      → i_size inode + s.block_size ≤ 2 ^ 32
      → (i_block (truncate_inode pf inode new_size s).0 k ≡ (
          if leb new_size (k * s.block_size) && ltb (k * s.block_size) (i_size inode)
          then 0
          else i_block inode k))
        × (i_size (truncate_inode pf inode new_size s).0 ≡ new_size)
  truncate_inode-pointers inode new_size s k lt pos new_fits old_fits =
      let (pointer, size) = truncate_inode-counted inode new_size s k lt in
      let above = leb-block_count new_size s.block_size k pos new_fits in
      let below = ltb-block_count (i_size inode) s.block_size k pos old_fits in
      (pointer ∙ rw (above, below) refl, size ∙ omega arith)
