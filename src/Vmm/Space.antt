-- ===== src/Vmm/Space.antt =====
-- The directory that `vmm_create_address_space` of src/kernel/memory/vmm.c fills.
use dvivon_os.Vmm.Copy.{copy_entries-Copied, Copied, scratch_word}
use dvivon_os.Vmm.Fresh.{handed_out}
use dvivon_os.Pmm.{alloc_page, Pmm}
use dvivon_os.Pmm.Alloc.{IsValid}
use dvivon_os.Vmm.{
  Vmm, create_address_space, kernel_flags, clear_words, fill_directory, frame, is_present,
  pd_window, pd_scratch_window, copy_entries, Mmu,
}
use dvivon_os.Base.{
  inr, sym, true, bit_or, if◌then◌else◌, subst, inl, refl, ◌==◌, false, ap, ◌∙◌, ◌%◌, some, arith,
  ◌≢◌, ◌⊎◌, ◌*◌, ◌≡◌, ◌≤◌, ◌+◌, ◌<◌, ℕ,
}
use dvivon_os.Vmm.Walk.{frame-entry, present-entry, IsRecursive, walk, IsMmu}
use dvivon_os.Vmm.Mapping.{HasTable, InUse}
use dvivon_os.Vmm.Page.{clear_words-Cleared, Cleared, store-InUse}
use native.Mathlib.Decide.{dec_lt}
use dvivon_os.Vmm.Windows.{pd_window_lem}

-- The new directory `new` in the memory `after`, made from the directory `pd` in `before`: no user
-- page, the kernel's entries below the scratch slot, and itself as its last entry. The current
-- directory loses what its scratch slot held; nothing else changes.
pub record NewDirectory (before after : ℕ → ℕ) (pd new : ℕ) : Type 0 where
  pub user : (i : ℕ) → i < 768 → after (new + 4 * i) ≡ 0
  pub kernel : (i : ℕ) → 768 ≤ i → i < 1022 → after (new + 4 * i) ≡ before (pd + 4 * i)
  pub recursive : IsRecursive after new
  pub scratch : after (pd + 4088) ≡ 0
  pub kept : (q : ℕ) → (q < new) ⊎ (new + 4096 ≤ q) → q ≢ pd + 4088 → after q ≡ before q

module _ {S : Type 0} (m : Mmu S) (l : IsMmu m) (new : ℕ) where
  module _ (s : S) (r : IsRecursive (l.physical s) (m.read_cr3 s)) (aligned : new % 4096 ≡ 0)
      (other : new ≢ m.read_cr3 s) where
    abbrev pd : ℕ
    pd = m.read_cr3 s

    abbrev entry : ℕ
    entry = bit_or new kernel_flags

    entry-frame : frame entry ≡ new
    entry-frame =
        let e : frame new ≡ new = omega arith in
        ap (λ k. frame (bit_or k kernel_flags)) (sym e)
        ∙ frame-entry new kernel_flags (omega arith)
        ∙ e

    entry-present : is_present entry ≡ true
    entry-present =
        let e : frame new ≡ new = omega arith in
        ap (λ k. is_present (bit_or k kernel_flags)) (sym e)
        ∙ present-entry new kernel_flags (omega arith) refl

    -- The scratch slot shows the new page.
    abbrev shown : S
    shown = m.invlpg pd_scratch_window (m.store (pd_window + 4 * 1022) entry s)

    shown-physical :
        (q : ℕ) → l.physical shown q ≡ (if q == pd + 4 * 1022 then entry else l.physical s q)
    shown-physical q =
        l.invlpg_physical pd_scratch_window q _
        ∙ l.store_walk (pd_window + 4 * 1022) entry (pd + 4 * 1022) q s
            (pd_window_lem (l.physical s) pd r 1022 (omega arith))

    shown-cr3 : m.read_cr3 shown ≡ pd
    shown-cr3 = l.invlpg_cr3 pd_scratch_window _ ∙ l.store_cr3 _ entry s

    shown-InUse : InUse m l shown 1022 new
    shown-InUse =
        let last : l.physical shown (pd + 4092) ≡ l.physical s (pd + 4092) =
          ground (arith, shown-physical (pd + 4092)) in
        let mine : l.physical shown (pd + 4 * 1022) ≡ entry =
          ground (arith, shown-physical (pd + 4 * 1022)) in
        subst (λ d. HasTable (l.physical shown) d 1022 new) (sym shown-cr3)
          (record {
            recursive = record {
              aligned = r.aligned;
              itself = ap frame last ∙ r.itself;
              present = ap is_present last ∙ r.present;
            };
            named = ap frame mine ∙ entry-frame;
            there = ap is_present mine ∙ entry-present;
            aligned = aligned;
            other = other;
            below = omega arith;
          })

    abbrev cleared : S
    cleared = clear_words m 768 pd_scratch_window shown

    cleared-Cleared : Cleared m l 1022 new 0 768 shown cleared
    cleared-Cleared =
        clear_words-Cleared m l pd_scratch_window 1022 new (scratch_word m l new) 768 0 shown
          shown-InUse (omega arith)

    abbrev filled : S
    filled = copy_entries m 254 768 cleared

    filled-Copied : Copied m l new 768 254 cleared filled
    filled-Copied = copy_entries-Copied m l new 254 768 cleared cleared-Cleared.in_use (omega arith)

    filled-cr3 : m.read_cr3 filled ≡ pd
    filled-cr3 = filled-Copied.cr3 ∙ cleared-Cleared.cr3 ∙ shown-cr3

    abbrev own : S
    own = m.store (pd_scratch_window + 4 * 1023) entry filled

    own-put :
        (q : ℕ) → l.physical own q ≡ (if q == new + 4 * 1023 then entry else l.physical filled q)
    own-put =
        (store-InUse m l pd_scratch_window 1022 new (scratch_word m l new) 1023 entry filled
          filled-Copied.in_use (omega arith)).1

    own-InUse : InUse m l own 1022 new
    own-InUse =
        (store-InUse m l pd_scratch_window 1022 new (scratch_word m l new) 1023 entry filled
          filled-Copied.in_use (omega arith)).0

    own-cr3 : m.read_cr3 own ≡ pd
    own-cr3 = l.store_cr3 _ entry filled ∙ filled-cr3

    final-physical :
        (q : ℕ)
        → l.physical (fill_directory m new s) q
          ≡ (if q == pd + 4 * 1022 then 0 else l.physical own q)
    unfolding fill_directory
    final-physical q =
        l.invlpg_physical pd_scratch_window q _
        ∙ l.store_walk (pd_window + 4 * 1022) 0 (pd + 4 * 1022) q own (
            subst
              (λ d.
                walk (l.physical own) (m.read_cr3 own) (pd_window + 4 * 1022) ≡ some (d + 4 * 1022))
              own-cr3
              (pd_window_lem (l.physical own) (m.read_cr3 own) own-InUse.recursive 1022
                (omega arith)))

    outside : (k : ℕ) → k < 1024 → (pd + 4 * k < new + 4 * 0) ⊎ (new + 4096 ≤ pd + 4 * k)
    outside k lt = elim (dec_lt pd new) [
      | yes before ↦ inl (omega (arith, aligned, r.aligned))
      | no behind ↦ inr (omega (arith, aligned, r.aligned, other))
    ]

    -- The word of the new page at j, which is not in the current directory.
    page_word :
        (j : ℕ)
        → j < 1024
        → l.physical (fill_directory m new s) (new + 4 * j) ≡ l.physical own (new + 4 * j)
    page_word j lt = ground (arith, final-physical (new + 4 * j), aligned, r.aligned, other)

    fill_directory-user : (i : ℕ) → i < 768 → l.physical (fill_directory m new s) (new + 4 * i) ≡ 0
    fill_directory-user i lt =
        page_word i (omega arith)
        ∙ ground (arith, own-put (new + 4 * i))
        ∙ filled-Copied.kept (new + 4 * i) (inl (omega arith))
        ∙ cleared-Cleared.zeroed i (omega arith) (omega arith)

    fill_directory-kernel :
        (i : ℕ)
        → 768 ≤ i
        → i < 1022
        → l.physical (fill_directory m new s) (new + 4 * i) ≡ l.physical s (pd + 4 * i)
    fill_directory-kernel i lo hi =
        page_word i (omega arith)
        ∙ ground (arith, own-put (new + 4 * i))
        ∙ filled-Copied.copied i lo hi
        ∙ ap (λ d. l.physical cleared (d + 4 * i)) (cleared-Cleared.cr3 ∙ shown-cr3)
        ∙ cleared-Cleared.kept (pd + 4 * i) (outside i (omega arith))
        ∙ ground (arith, shown-physical (pd + 4 * i))

    fill_directory-own : l.physical (fill_directory m new s) (new + 4092) ≡ entry
    fill_directory-own = page_word 1023 (omega arith) ∙ ground (arith, own-put (new + 4 * 1023))

    fill_directory-kept :
        (q : ℕ)
        → (q < new) ⊎ (new + 4096 ≤ q)
        → q ≢ pd + 4088
        → l.physical (fill_directory m new s) q ≡ l.physical s q
    fill_directory-kept q out ne =
        let late : l.physical (fill_directory m new s) q ≡ l.physical own q =
          ground (arith, final-physical q, ne) in
        let self : l.physical own q ≡ l.physical filled q = ground (arith, own-put q, out) in
        let early : l.physical shown q ≡ l.physical s q = ground (arith, shown-physical q, ne) in
        late
        ∙ self
        ∙ filled-Copied.kept q (ground (arith, out))
        ∙ cleared-Cleared.kept q (ground (arith, out))
        ∙ early

    fill_directory-NewDirectory :
        NewDirectory (l.physical s) (l.physical (fill_directory m new s)) pd new
    fill_directory-NewDirectory = record {
      user = fill_directory-user;
      kernel = fill_directory-kernel;
      recursive = record {
        aligned = aligned;
        itself = ap frame fill_directory-own ∙ entry-frame;
        present = ap is_present fill_directory-own ∙ entry-present;
      };
      scratch = ground (arith, final-physical (pd + 4 * 1022));
      kept = fill_directory-kept;
    }

-- `vmm_create_address_space` over a valid page allocator that hands out a page other than the current
-- directory: it gives that page, whose words are then a directory with no user page, the kernel's
-- entries 768 to 1021 of the current directory, and itself as its last entry; the current directory's
-- scratch slot is empty, and no other word outside the new page changes.
pub create_address_space-NewDirectory :
    {S : Type 0} (m : Mmu S) (l : IsMmu m) (new : ℕ) (p' : Pmm) (v : Vmm S)
    → IsRecursive (l.physical v.memory) (m.read_cr3 v.memory)
    → IsValid v.pmm
    → alloc_page v.pmm ≡ some (new, p')
    → new ≢ 0
    → new ≢ m.read_cr3 v.memory
    → (w : Vmm S) × (create_address_space m v ≡ some (new, w))
      × (w.pmm ≡ p')
      × NewDirectory (l.physical v.memory) (l.physical w.memory) (m.read_cr3 v.memory) new
unfolding create_address_space
create_address_space-NewDirectory m l new p' v r valid e some_page other =
    let positive : (new == 0) ≡ false = ground arith in
    (
      record v { pmm = p'; memory = fill_directory m new v.memory },
      rw (e, create_address_space) (rw positive refl),
      refl,
      fill_directory-NewDirectory m l new v.memory r (handed_out m l v.pmm new p' valid e some_page)
          other,
    )
