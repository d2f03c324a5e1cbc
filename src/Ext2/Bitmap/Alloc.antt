-- ===== src/Ext2/Bitmap/Alloc.antt =====
-- What the loop of `ext2_alloc_block` and `ext2_alloc_inode` finds.
use dvivon_os.Ext2.Bitmap.Store.{
  same_block, SameShape, store-SameShape, total_free-store, number-store, in_use-store, in_use,
  IsLaidOut,
}
use dvivon_os.Base.{
  zero, sym, ◌-◌, ◌/◌, Option-cases, ◌%◌, ◌^◌, Bool-cases, refl, ap, not, some, suc, ◌==◌, false,
  inl, inr, ◌∙◌, arith, ◌&&◌, ◌*◌, ◌+◌, ◌≢◌, if◌then◌else◌, true, ◌<◌, ◌≤◌, ◌⊎◌, ◌||◌, ℕ, ◌≡◌, Bool,
}
use dvivon_os.Ext2.Bitmap.Bits.{used-mark_used, is_free-used, used}
use dvivon_os.Base.Search.{find_from-none, find_from-some}
use dvivon_os.Ext2.Bitmap.{
  mark_used, total_free, inodes, number, blocks, find_from, is_free, same_kind, bitmap_block,
  take_bit, Buf, alloc_from, group_bits, group_free, per_group, Fs, Kind,
}
use dvivon_os.Base.Bits.{bit}
use native.Mathlib.Decide.{dec_lt}
use dvivon_os.Ext2.Super.{SameTables}
use dvivon_os.Ext2.Platform.{Reliable, Platform}

marked_if :
    (t x u e r : Bool) → x ≡ (r || e) → (t ≡ true → r ≡ u) → (if t then x else u) ≡ (u || (t && e))
marked_if true x u e r h same = h ∙ ap (λ v. v || e) (same refl)
marked_if false x true e r h same = refl
marked_if false x false e r h same = refl

pub group_bits-le_per :
    (pf : Platform) (k : Kind) (s : Fs pf) (n g : ℕ)
    → per_group k s.sb ≤ n
    → group_bits pf k s g ≤ n
group_bits-le_per pf blocks s n g h = ground arith
group_bits-le_per pf inodes s n g h = h

module _ (pf : Platform) (bs : ℕ) (ok : Reliable pf bs) (k : Kind) where
  -- Item `index` of group `group` was free, is handed out by its number, and is the only one newly
  -- marked in the bitmaps of either kind; the free count falls by one.
  pub record Took (s : Fs pf) (b : ℕ) (s' : Fs pf) : Type 0 where
    pub group : ℕ
    pub index : ℕ
    pub group_lt : group < s.groups_count
    pub index_lt : index < group_bits pf k s group
    pub was_free : in_use pf bs ok k s group index ≡ false
    pub is_numbered : b ≡ number k s.sb group index
    pub marks :
        (k' : Kind) (h j : ℕ)
        → h < s.groups_count
        → j < 8 * bs
        → in_use pf bs ok k' s' h j
          ≡ (in_use pf bs ok k' s h j || (same_kind k k' && (group == h) && (index == j)))
    pub count : total_free k s'.sb ≡ (total_free k s.sb + 2 ^ 32 - 1) % 2 ^ 32
    pub shape : SameShape pf bs ok s s'

  -- The device and the tables are as before.
  pub record Unchanged (s s' : Fs pf) : Type 0 where
    pub dev : s'.dev ≡ s.dev
    pub tables : SameTables pf s s'

  -- Every item is in use in the groups from g on whose counter is not zero.
  abbrev pub FullFrom : Fs pf → ℕ → Type 0
  FullFrom s g =
      (h j : ℕ)
      → g ≤ h
      → h < s.groups_count
      → group_free k s.group_desc h ≢ 0
      → j < group_bits pf k s h
      → in_use pf bs ok k s h j ≡ true

  abbrev pub FromGroup : Fs pf → ℕ → ℕ × Fs pf → Type 0
  FromGroup s g (b, s') = Took s b s' ⊎ ((b ≡ 0) × Unchanged s s' × FullFrom s g)

  module _ (s : Fs pf) (laid : IsLaidOut pf bs ok s) where
    group_bits-le : (g : ℕ) → group_bits pf k s g ≤ 8 * bs
    group_bits-le g = group_bits-le_per pf k s (8 * bs) g (laid.bits k)

    FullFrom-suc :
        (g : ℕ)
        → (group_free k s.group_desc g ≢ 0
            → (j : ℕ) → j < group_bits pf k s g
            → in_use pf bs ok k s g j ≡ true)
        → FullFrom s (g + 1)
        → FullFrom s g
    FullFrom-suc g here later h j lo hi some_free lt = elim (dec_lt g h) [
      | yes past ↦ later h j (omega arith) hi some_free lt
      | no ge ↦ let e : h ≡ g = omega arith in rw e (here (rw e at some_free) j (rw e at lt))
    ]

    FromGroup-suc :
        (g : ℕ) (r : ℕ × Fs pf)
        → (group_free k s.group_desc g ≢ 0
            → (j : ℕ) → j < group_bits pf k s g
            → in_use pf bs ok k s g j ≡ true)
        → FromGroup s (g + 1) r
        → FromGroup s g r
    FromGroup-suc g (b, s') here (inl took) = inl took
    FromGroup-suc g (b, s') here (inr (z, same, full)) = inr (z, same, FullFrom-suc g here full)

    -- The bitmap of group g, as the loop reads it.
    module _ (g : ℕ) (p : ℕ) (m : Buf) where
      abbrev read : Buf
      read = (pf.read_block s.dev (bitmap_block k s.group_desc g) m).1

      is_free-read : (j : ℕ) → j < 8 * bs → is_free read j ≡ not (in_use pf bs ok k s g j)
      is_free-read j lt =
          is_free-used read j
          ∙ ap (λ w. not (bit w (j % 8)))
              (ok.read_bytes s.dev (bitmap_block k s.group_desc g) m (j / 8) (omega arith))

      is_used-read : (j : ℕ) → j < 8 * bs → used read j ≡ in_use pf bs ok k s g j
      is_used-read j lt =
          ap (λ w. bit w (j % 8))
            (ok.read_bytes s.dev (bitmap_block k s.group_desc g) m (j / 8) (omega arith))

      module _ (i : ℕ) (g_lt : g < s.groups_count) where
        marks-take_bit :
            (k' : Kind) (h j : ℕ)
            → h < s.groups_count
            → j < 8 * bs
            → in_use pf bs ok k' (take_bit pf k p read g i s).1 h j
              ≡ (in_use pf bs ok k' s h j || (same_kind k k' && (g == h) && (i == j)))
        unfolding take_bit
        marks-take_bit k' h j h_lt lt =
            in_use-store pf bs ok k g (mark_used read i) _ _ p s laid g_lt k' h j h_lt lt
            ∙ marked_if (same_kind k k' && (g == h)) (used (mark_used read i) j)
                (in_use pf bs ok k' s h j) (i == j) (used read j) (used-mark_used read i j)
                (λ t.
                  is_used-read j lt
                  ∙ sym
                      (ap (λ b. used (ok.content s.dev b) j) (same_block k k' g h s.group_desc t)))

        take-Took :
            find_from (is_free read) 0 (group_bits pf k s g) ≡ some i
            → FromGroup s g (take_bit pf k p read g i s)
        unfolding take_bit
        take-Took e =
            let found = find_from-some (is_free read) 0 (group_bits pf k s g) e in
            let small : i < 8 * bs = omega (arith, found.1, group_bits-le g) in
            inl (record {
              group = g;
              index = i;
              group_lt = g_lt;
              index_lt = omega (arith, found.1);
              was_free = ground (arith, found.2, is_free-read i small);
              is_numbered = number-store pf bs ok k g (mark_used read i) _ _ p s i;
              marks = marks-take_bit;
              count = total_free-store pf bs ok k g (mark_used read i) _ _ p s;
              shape = store-SameShape pf bs ok k g (mark_used read i) _ _ p s;
            })

    pub alloc_from-FromGroup :
        (n g p : ℕ) (m : Buf) → g + n ≡ s.groups_count → FromGroup s g (alloc_from pf k n g p m s)
    unfolding alloc_from
    alloc_from-FromGroup zero g p m e = inr (
      refl,
      record {
        dev = refl;
        tables = record { sb = refl; group_desc = refl; groups_count = refl; block_size = refl };
      },
      λ h j lo hi. absurd (omega arith),
    )
    alloc_from-FromGroup (suc n) g p m e = elim (Bool-cases (group_free k s.group_desc g == 0)) [
      | inl empty ↦ rw empty (
          FromGroup-suc g _ (λ some_free. absurd (ground arith))
            (alloc_from-FromGroup n (g + 1) p m (omega arith)))
      | inr some_free ↦
          rw some_free
            (elim (Option-cases (find_from (is_free (read g p m)) 0 (group_bits pf k s g))) [
              | inl full ↦ rw full (
                  FromGroup-suc g _
                    (λ _ j lt. ground (
                      arith,
                      find_from-none (is_free (read g p m)) 0 (group_bits pf k s g) full j
                          (omega arith) (omega arith),
                      is_free-read g p m j (omega (arith, group_bits-le g)),
                    ))
                    (alloc_from-FromGroup n (g + 1) p (read g p m) (omega arith)))
              | inr (i, hit) ↦ rw hit (take-Took g p m i (omega arith) hit)
            ])
    ]
