-- ===== src/Ext2/Bitmap/Store.antt =====
-- What storing one bitmap, and writing the tables back, does to the marks on disk.
use dvivon_os.Base.{
  ==_of_ne, refl, ==_iff, false, Bool-cases, ◌/◌, inl, sym, inr, subst, true, ◌&&◌, arith,
  if◌then◌else◌, ◌+◌, ◌^◌, ◌∙◌, ap, ap₂, ◌%◌, ◌*◌, ◌==◌, ◌≢◌, ◌≤◌, ◌<◌, ◌≡◌,
}
use dvivon_os.Ext2.Bitmap.{
  bg_inode_bitmap, bg_block_bitmap, flush_group_desc, inodes, blocks, same_kind, Bool, store, Fs,
  set_group_free, set_total_free, bitmap_block, number, per_group, s_first_data_block, total_free,
  Buf, ℕ, Kind,
}
use dvivon_os.Base.Bits.{bit}
use mathlib.Core.Bool.{false≢true}
use dvivon_os.Ext2.State.{gd_per_block, gd_block}
use dvivon_os.Ext2.Super.{
  flush_group_desc_frame, flush_superblock_frame, flush_superblock-SameTables,
  flush_group_desc-SameTables, sb_block, SameTables,
}
use native.Mathlib.Decide.{dec_lt}
use dvivon_os.Base.Buf.{get32-put16_ne, get32-put32_self, get32-put32_ne}
use dvivon_os.Ext2.Bitmap.Bits.{used}
use dvivon_os.Ext2.Platform.{Reliable, Platform}

-- The fields of descriptors do not overlap: a bitmap's number and a counter.
field_apart :
    (k k' : Kind) (g h : ℕ)
    → (gd : Buf) (v : ℕ) → bitmap_block k' (set_group_free k gd g v) h ≡ bitmap_block k' gd h
field_apart blocks blocks g h gd v =
    get32-put16_ne gd (32 * g + 12) v (32 * h)
      (elim (dec_lt g h) [ yes lt ↦ inr (omega arith) | no ge ↦ inl (omega arith) ])
field_apart blocks inodes g h gd v =
    get32-put16_ne gd (32 * g + 12) v (32 * h + 4)
      (elim (dec_lt g h) [ yes lt ↦ inr (omega arith) | no ge ↦ inl (omega arith) ])
field_apart inodes blocks g h gd v =
    get32-put16_ne gd (32 * g + 14) v (32 * h)
      (elim (dec_lt g h) [ yes lt ↦ inr (omega arith) | no ge ↦ inl (omega arith) ])
field_apart inodes inodes g h gd v =
    get32-put16_ne gd (32 * g + 14) v (32 * h + 4)
      (elim (dec_lt g h) [ yes lt ↦ inr (omega arith) | no ge ↦ inl (omega arith) ])

first_apart :
    (k : Kind) (sb : Buf) (v : ℕ)
    → s_first_data_block (set_total_free k sb v) ≡ s_first_data_block sb
first_apart blocks sb v = get32-put32_ne sb 12 v 20 (omega arith)
first_apart inodes sb v = get32-put32_ne sb 16 v 20 (omega arith)

per_group_apart :
    (k k' : Kind) (sb : Buf) (v : ℕ) → per_group k' (set_total_free k sb v) ≡ per_group k' sb
per_group_apart blocks blocks sb v = get32-put32_ne sb 12 v 32 (omega arith)
per_group_apart blocks inodes sb v = get32-put32_ne sb 12 v 40 (omega arith)
per_group_apart inodes blocks sb v = get32-put32_ne sb 16 v 32 (omega arith)
per_group_apart inodes inodes sb v = get32-put32_ne sb 16 v 40 (omega arith)

number_apart :
    (k : Kind) (sb : Buf) (v g i : ℕ) → number k (set_total_free k sb v) g i ≡ number k sb g i
number_apart blocks sb v g i =
    ap₂ (λ a b. (a + g * b + i) % 2 ^ 32) (first_apart blocks sb v)
      (per_group_apart blocks blocks sb v)
number_apart inodes sb v g i =
    ap (λ b. (g * b + i + 1) % 2 ^ 32) (per_group_apart inodes inodes sb v)

total_free_lem : (k : Kind) (sb : Buf) (v : ℕ) → total_free k (set_total_free k sb v) ≡ v % 2 ^ 32
total_free_lem blocks sb v = get32-put32_self sb 12 v
total_free_lem inodes sb v = get32-put32_self sb 16 v

pub same_block :
    (k k' : Kind) (g h : ℕ) (gd : Buf)
    → (same_kind k k' && (g == h)) ≡ true
    → bitmap_block k' gd h ≡ bitmap_block k gd g
same_block blocks blocks g h gd e = ap (bg_block_bitmap gd) (ground arith)
same_block inodes inodes g h gd e = ap (bg_inode_bitmap gd) (ground arith)
same_block blocks inodes g h gd e = absurd (ground arith)
same_block inodes blocks g h gd e = absurd (ground arith)

bit_of_if : (t : Bool) (a b n : ℕ) → bit (if t then a else b) n ≡ (if t then bit a n else bit b n)
bit_of_if true a b n = refl
bit_of_if false a b n = refl

module _ (pf : Platform) (bs : ℕ) (ok : Reliable pf bs) where
  -- Whether block or inode i of group g is marked in the bitmap on disk.
  abbrev pub in_use : Kind → Fs pf → ℕ → ℕ → Bool
  in_use k s g i = used (ok.content s.dev (bitmap_block k s.group_desc g)) i

  -- The layout that `mke2fs` gives: each bitmap has a block of its own, which holds no descriptors
  -- and no superblock, and a bit for everything of its group.
  pub record IsLaidOut (s : Fs pf) : Type 0 where
    pub size : s.block_size ≡ bs
    pub bits : (k : Kind) → per_group k s.sb ≤ 8 * bs
    pub apart :
        (k k' : Kind) (g h : ℕ)
        → g < s.groups_count
        → h < s.groups_count
        → bitmap_block k s.group_desc g ≡ bitmap_block k' s.group_desc h
        → (same_kind k k' && (g == h)) ≡ true
    pub off_descriptors :
        (k : Kind) (g h : ℕ)
        → g < s.groups_count
        → h < s.groups_count
        → bitmap_block k s.group_desc g ≢ gd_block pf s h
    pub off_superblock :
        (k : Kind) (g : ℕ) → g < s.groups_count → bitmap_block k s.group_desc g ≢ sb_block s

  -- What an update leaves of the file system's shape.
  pub record SameShape (s s' : Fs pf) : Type 0 where
    pub bitmaps :
        (k : Kind) (h : ℕ) → bitmap_block k s'.group_desc h ≡ bitmap_block k s.group_desc h
    pub per_group_same : (k : Kind) → per_group k s'.sb ≡ per_group k s.sb
    pub first : s_first_data_block s'.sb ≡ s_first_data_block s.sb
    pub groups : s'.groups_count ≡ s.groups_count
    pub size : s'.block_size ≡ s.block_size

  module _ (k : Kind) (g : ℕ) (m : Buf) (in_group total p : ℕ) (s : Fs pf) where
    -- The state before the two flushes.
    abbrev written : Fs pf
    written = record s {
      dev = (pf.write_block s.dev (bitmap_block k s.group_desc g) m).1;
      heap = pf.kfree s.heap p;
      group_desc = set_group_free k s.group_desc g in_group;
      sb = set_total_free k s.sb total;
    }

    tables : SameTables pf written (store pf k g m in_group total p s)
    unfolding store
    tables =
        let a = flush_group_desc-SameTables pf g written in
        let b = flush_superblock-SameTables pf (flush_group_desc pf g written).1 in
        record {
          sb = b.sb ∙ a.sb;
          group_desc = b.group_desc ∙ a.group_desc;
          groups_count = b.groups_count ∙ a.groups_count;
          block_size = b.block_size ∙ a.block_size;
        }

    pub store-SameShape : SameShape s (store pf k g m in_group total p s)
    store-SameShape = record {
      bitmaps = λ k' h.
          ap (λ gd. bitmap_block k' gd h) tables.group_desc
          ∙ field_apart k k' g h s.group_desc in_group;
      per_group_same = λ k'. ap (per_group k') tables.sb ∙ per_group_apart k k' s.sb total;
      first = ap s_first_data_block tables.sb ∙ first_apart k s.sb total;
      groups = tables.groups_count;
      size = tables.block_size;
    }

    pub total_free-store : total_free k (store pf k g m in_group total p s).sb ≡ total % 2 ^ 32
    total_free-store = ap (total_free k) tables.sb ∙ total_free_lem k s.sb total

    pub number-store :
        (i : ℕ) → number k (store pf k g m in_group total p s).sb g i ≡ number k s.sb g i
    number-store i = ap (λ sb. number k sb g i) tables.sb ∙ number_apart k s.sb total g i

    -- The flushes change no block but the two of the tables.
    content-store :
        (c j : ℕ)
        → j < bs
        → c ≢ gd_block pf s g
        → c ≢ sb_block s
        → ok.content (store pf k g m in_group total p s).dev c j
          ≡ (if c == bitmap_block k s.group_desc g then m j else ok.content s.dev c j)
    unfolding store
    content-store c j lt ne₁ ne₂ =
        let after = (flush_group_desc pf g written).1 in
        let size = (flush_group_desc-SameTables pf g written).block_size in
        flush_superblock_frame pf bs ok after c j lt
          (subst (λ n. c ≢ (if n == 1024 then 1 else 0)) (sym size) ne₂)
        ∙ flush_group_desc_frame pf bs ok g written c j lt (
            subst (λ n. c ≢ (n + 1 + g / gd_per_block pf s) % 2 ^ 32)
              (sym (first_apart k s.sb total)) ne₁)
        ∙ ok.write_bytes s.dev (bitmap_block k s.group_desc g) m c j lt

    module _ (laid : IsLaidOut s) (g_lt : g < s.groups_count) where
      same_test :
          (k' : Kind) (h : ℕ)
          → h < s.groups_count
          → (bitmap_block k' s.group_desc h == bitmap_block k s.group_desc g)
            ≡ (same_kind k k' && (g == h))
      same_test k' h h_lt = elim (Bool-cases (same_kind k k' && (g == h))) [
        | inl t ↦ rw t ((==_iff _ _).1 (same_block k k' g h s.group_desc t))
        | inr f ↦
            rw f (==_of_ne _ _ (λ e. false≢true (sym f ∙ laid.apart k k' g h g_lt h_lt (sym e))))
      ]

      -- Each bitmap on disk afterwards: the one that was stored, and all the others as before.
      pub in_use-store :
          (k' : Kind) (h j : ℕ)
          → h < s.groups_count
          → j < 8 * bs
          → in_use k' (store pf k g m in_group total p s) h j
            ≡ (if same_kind k k' && (g == h) then used m j else in_use k' s h j)
      in_use-store k' h j h_lt lt =
          let s' = store pf k g m in_group total p s in
          let b = bitmap_block k' s.group_desc h in
          ap (λ c. used (ok.content s'.dev c) j) (store-SameShape.bitmaps k' h)
          ∙ ap (λ w. bit w (j % 8))
              (content-store b (j / 8) (omega arith) (laid.off_descriptors k' h g h_lt g_lt)
                  (laid.off_superblock k' h h_lt)
                ∙ ap (λ t. if t then m (j / 8) else ok.content s.dev b (j / 8))
                    (same_test k' h h_lt))
          ∙ bit_of_if (same_kind k k' && (g == h)) (m (j / 8)) (ok.content s.dev b (j / 8)) (j % 8)
