-- ===== src/Ext2/Bitmap/Release.antt =====
-- `ext2_free_block` and `ext2_free_inode`, alone and after an allocation.
use dvivon_os.Base.Search.{and_true}
use dvivon_os.Base.{
  subst, ==_iff, ◌-◌, ◌||◌, false, true, ap, ap₂, if◌then◌else◌, ==_of_ne, sym, Bool, refl, ◌∙◌,
  ◌==◌, not, ◌&&◌, ◌^◌, ◌≢◌, ◌≡◌, ◌≤◌, arith, ◌%◌, ◌/◌, ◌+◌, ◌*◌, ◌<◌, ℕ,
}
use dvivon_os.Ext2.Bitmap.Alloc.{group_bits-le_per, Took}
use dvivon_os.Ext2.Bitmap.Store.{same_block, in_use-store, in_use, SameShape, IsLaidOut}
use dvivon_os.Base.Bits.{bit}
use dvivon_os.Ext2.Bitmap.Bits.{used-mark_free, used}
use dvivon_os.Ext2.Layout.{group_desc_size}
use dvivon_os.Ext2.Bitmap.{
  mark_free, bitmap_block, same_kind, inodes, blocks, free, s_inodes_per_group, number,
  s_blocks_per_group, relative, Fs, per_group, s_first_data_block, Buf, Kind,
}
use dvivon_os.Ext2.Platform.{Reliable, Platform}

div_of_sum : (g n i : ℕ) → i < n → (g * n + i) / n ≡ g
div_of_sum g n i h = grind arith

mod_of_sum : (g n i : ℕ) → i < n → (g * n + i) % n ≡ i
mod_of_sum g n i h = grind arith

index_lt : (g i n groups : ℕ) → g < groups → i < n → g * n + i < groups * n
index_lt g i n groups hg hi = grind arith

-- All numbers fit 32 bits.
abbrev pub Fits : Kind → Buf → ℕ → Type 0
Fits blocks sb groups = s_first_data_block sb + groups * s_blocks_per_group sb ≤ 2 ^ 32
Fits inodes sb groups = groups * s_inodes_per_group sb < 2 ^ 32

-- The number of an item leads back to its group and index.
pub relative-number :
    (k : Kind) (sb : Buf) (g i groups : ℕ)
    → Fits k sb groups
    → g < groups
    → i < per_group k sb
    → relative k sb (number k sb g i) ≡ g * per_group k sb + i
relative-number blocks sb g i groups fits hg hi =
    omega (arith, index_lt g i (s_blocks_per_group sb) groups hg hi)
relative-number inodes sb g i groups fits hg hi =
    omega (arith, index_lt g i (s_inodes_per_group sb) groups hg hi)

or_and_not : (u x : Bool) → (x ≡ true → u ≡ false) → ((u || x) && not x) ≡ u
or_and_not true true h = sym (h refl)
or_and_not false true h = refl
or_and_not true false h = refl
or_and_not false false h = refl

relative_same :
    (k : Kind) (sb sb' : Buf) (b : ℕ)
    → s_first_data_block sb' ≡ s_first_data_block sb
    → relative k sb' b ≡ relative k sb b
relative_same blocks sb sb' b e = ap (λ f. (b + 2 ^ 32 - f) % 2 ^ 32) e
relative_same inodes sb sb' b e = refl

cleared_if :
    (t x u e r : Bool)
    → x ≡ (r && not e)
    → (t ≡ true → r ≡ u)
    → (if t then x else u) ≡ (u && not (t && e))
cleared_if true x u e r h same = h ∙ ap (λ v. v && not e) (same refl)
cleared_if false x true e r h same = refl
cleared_if false x false e r h same = refl

module _ (pf : Platform) (bs : ℕ) (ok : Reliable pf bs) (k : Kind) where
  -- A state of the same shape is laid out alike.
  pub IsLaidOut-SameShape :
      (s s' : Fs pf) → IsLaidOut pf bs ok s → SameShape pf bs ok s s' → IsLaidOut pf bs ok s'
  IsLaidOut-SameShape s s' laid same = record {
    size = same.size ∙ laid.size;
    bits = λ k'. rw (same.per_group_same k') (laid.bits k');
    apart = λ k₁ k₂ g h g_lt h_lt e.
        laid.apart k₁ k₂ g h (rw same.groups at g_lt) (rw same.groups at h_lt)
          (sym (same.bitmaps k₁ g) ∙ e ∙ same.bitmaps k₂ h);
    off_descriptors = λ k' g h g_lt h_lt e.
        laid.off_descriptors k' g h (rw same.groups at g_lt) (rw same.groups at h_lt) (
          sym (same.bitmaps k' g)
          ∙ e
          ∙ ap₂ (λ a b. (a + 1 + h / (b / group_desc_size)) % 2 ^ 32) same.first same.size);
    off_superblock = λ k' g g_lt e.
        laid.off_superblock k' g (rw same.groups at g_lt)
          (sym (same.bitmaps k' g) ∙ e ∙ ap (λ b. if b == 1024 then 1 else 0) same.size);
  }

  SameShape-heap : (s : Fs pf) (h : pf.Heap) → SameShape pf bs ok s (record s { heap = h })
  SameShape-heap s h = record {
    bitmaps = λ k' g. refl;
    per_group_same = λ k'. refl;
    first = refl;
    groups = refl;
    size = refl;
  }

  module _ (s : Fs pf) (laid : IsLaidOut pf bs ok s) (g i n : ℕ) (g_lt : g < s.groups_count)
      (group : relative k s.sb n / per_group k s.sb ≡ g)
      (index : relative k s.sb n % per_group k s.sb ≡ i)
      (memory : (pf.kmalloc s.heap s.block_size).0 ≢ 0) where
    -- Freeing the block or inode with index i of group g clears its mark on disk and no other of either
    -- kind, on a volume that is laid out as `mke2fs` does, on a device that does not fail, where the
    -- scratch block is there.
    pub free-marks :
        (k' : Kind) (h j : ℕ)
        → h < s.groups_count
        → j < 8 * bs
        → in_use pf bs ok k' (free pf k n s) h j
          ≡ (in_use pf bs ok k' s h j && not (same_kind k k' && (g == h) && (i == j)))
    unfolding free
    free-marks k' h j h_lt lt =
        let heap = (pf.kmalloc s.heap s.block_size).1 in
        let s₀ : Fs pf = record s { heap = heap } in
        let b = bitmap_block k s.group_desc g in
        let m = (pf.read_block s.dev b (pf.memory heap (pf.kmalloc s.heap s.block_size).0)).1 in
        let laid₀ = IsLaidOut-SameShape s s₀ laid (SameShape-heap s heap) in
        rw (==_of_ne _ _ memory, group, index)
          (in_use-store pf bs ok k g (mark_free m i) _ _ _ s₀ laid₀ g_lt k' h j h_lt lt
            ∙ cleared_if (same_kind k k' && (g == h)) (used (mark_free m i) j)
                (in_use pf bs ok k' s h j) (i == j) (used m j) (used-mark_free m i j)
                (λ t.
                  ap (λ w. bit w (j % 8)) (ok.read_bytes s.dev b _ (j / 8) (omega arith))
                  ∙ sym
                      (ap (λ c. used (ok.content s.dev c) j) (same_block k k' g h s.group_desc t))))

  module _ (s : Fs pf) (laid : IsLaidOut pf bs ok s) {b : ℕ} {s' : Fs pf}
      (took : Took pf bs ok k s b s') (fits : Fits k s.sb s.groups_count)
      (memory : (pf.kmalloc s'.heap s'.block_size).0 ≢ 0) where
    abbrev per : ℕ
    per = per_group k s.sb

    index_lt_per : took.index < per
    index_lt_per =
        omega (arith, took.index_lt, group_bits-le_per pf k s per took.group (omega arith))

    position : relative k s'.sb b ≡ took.group * per + took.index
    position =
        relative_same k s.sb s'.sb b took.shape.first
        ∙ ap (relative k s.sb) took.is_numbered
        ∙ relative-number k s.sb took.group took.index s.groups_count fits took.group_lt
            index_lt_per

    unmarked :
        (k' : Kind) (h j : ℕ)
        → (same_kind k k' && (took.group == h) && (took.index == j)) ≡ true
        → in_use pf bs ok k' s h j ≡ false
    unmarked k' h j x =
        let (t, e) = and_true (same_kind k k' && (took.group == h)) (took.index == j) x in
        ap (λ c. used (ok.content s.dev c) j) (same_block k k' took.group h s.group_desc t)
        ∙ ap (in_use pf bs ok k s took.group) (sym ((==_iff took.index j).0 e))
        ∙ took.was_free

    -- Freeing a block or inode that was just allocated gives back the marks of every block and inode on
    -- disk, on a volume that is laid out as `mke2fs` does, on a device that does not fail, where all
    -- numbers fit 32 bits and the scratch block of the second call is there.
    pub free-alloc-marks :
        (k' : Kind) (h j : ℕ)
        → h < s.groups_count
        → j < 8 * bs
        → in_use pf bs ok k' (free pf k b s') h j ≡ in_use pf bs ok k' s h j
    free-alloc-marks k' h j h_lt lt =
        let laid' = IsLaidOut-SameShape s s' laid took.shape in
        let same_per = took.shape.per_group_same k in
        let group = ap₂ ◌/◌ position same_per ∙ div_of_sum took.group per took.index index_lt_per in
        let index = ap₂ ◌%◌ position same_per ∙ mod_of_sum took.group per took.index index_lt_per in
        let wider = λ (c : ℕ). subst (λ n. c < n) (sym took.shape.groups) in
        free-marks s' laid' took.group took.index b (wider took.group took.group_lt) group index
          memory k' h j (wider h h_lt) lt
        ∙ ap (λ u. u && not (same_kind k k' && (took.group == h) && (took.index == j)))
            (took.marks k' h j h_lt lt)
        ∙ or_and_not (in_use pf bs ok k' s h j)
            (same_kind k k' && (took.group == h) && (took.index == j)) (unmarked k' h j)
