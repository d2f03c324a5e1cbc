-- ===== src/Vmm/Fresh.antt =====
-- The new page table of `vmm_map_user_page` of src/kernel/memory/vmm.c.
use dvivon_os.Base.{
  refl, false, Bool-cases, none, ap, sym, ap₂, inr, subst, bit_or, inl, ◌==◌, arith, if◌then◌else◌,
  some, ◌^◌, ◌∙◌, ◌*◌, ◌/◌, ◌≢◌, ◌%◌, ◌+◌, ◌<◌, ◌≡◌, ℕ,
}
use dvivon_os.Vmm.Page.{clear_words-Cleared, Cleared}
use dvivon_os.Pmm.Outcome.{alloc_page_lem, Outcome}
use dvivon_os.Vmm.Translate.{load-pde}
use dvivon_os.Pmm.{alloc_page, Pmm}
use dvivon_os.Pmm.Alloc.{IsValid}
use dvivon_os.Vmm.{
  Vmm, map_user_page, set_pte_at, is_present, frame, user_flags, pd_window, enter_table, set_pde_at,
  pts_window, clear_words, Mmu,
}
use dvivon_os.Vmm.Mapping.{set_pte_at-physical, set_pte_at-walk, set_pte_at-cr3, HasTable, InUse}
use dvivon_os.Vmm.Walk.{present-entry, frame-entry, walk, IsRecursive, IsMmu}
use dvivon_os.Vmm.Windows.{pd_window_lem, pts_window_lem}

walk-empty :
    (mem : ℕ → ℕ) (pd table a : ℕ)
    → frame (mem (pd + 4 * (a / 2 ^ 22))) ≡ table
    → mem (table + 4 * (a / 2 ^ 12 % 2 ^ 10)) ≡ 0
    → walk mem pd a ≡ none
walk-empty mem pd table a named zeroed =
    elim (Bool-cases (is_present (mem (pd + 4 * (a / 2 ^ 22))))) [
      | inl there ↦ rw there (rw named (rw zeroed refl))
      | inr absent ↦ rw absent refl
    ]

module _ {S : Type 0} (m : Mmu S) (l : IsMmu m) where
  -- One word of the table, through the window.
  window_word :
      (i table j : ℕ) (s : S)
      → InUse m l s i table
      → j < 1024
      → walk (l.physical s) (m.read_cr3 s) (pts_window + i * 4096 + 4 * j) ≡ some (table + 4 * j)
  window_word i table j s h lt =
      let p : pts_window + i * 4096 + 4 * j ≡ pts_window + 4 * (i * 1024 + j) = omega arith in
      let e : (i * 1024 + j) / 1024 ≡ i = omega arith in
      let f : (i * 1024 + j) % 1024 ≡ j = omega arith in
      rw p (
        pts_window_lem (l.physical s) (m.read_cr3 s) h.recursive (i * 1024 + j)
          (omega (arith, h.below)) (rw e h.there)
        ∙ ap₂ (λ (a b : ℕ). some (frame (l.physical s (m.read_cr3 s + 4 * a)) + 4 * b)) e f
        ∙ ap (λ k. some (k + 4 * j)) h.named)

  module _ (vaddr table : ℕ) (s : S) (r : IsRecursive (l.physical s) (m.read_cr3 s))
      (aligned : table % 4096 ≡ 0) (other : table ≢ m.read_cr3 s) (lt : vaddr < pts_window) where
    abbrev named_state : S
    named_state =
        m.invlpg (pts_window + vaddr / 2 ^ 22 * 4096)
          (set_pde_at m pd_window vaddr table user_flags s)

    set_pde_lem :
        set_pde_at m pd_window vaddr table user_flags s
        ≡ m.store (pd_window + 4 * (vaddr / 2 ^ 22)) (bit_or (frame table) user_flags) s
    unfolding set_pde_at
    set_pde_lem =
        let a : (pd_window + 4 * (vaddr / 2 ^ 22)) % 2 ^ 32 ≡ pd_window + 4 * (vaddr / 2 ^ 22) =
          omega arith in
        ap (λ k. m.store k (bit_or (frame table) user_flags) s) a

    set_pde-physical :
        (q : ℕ)
        → l.physical named_state q ≡ (
            if q == m.read_cr3 s + 4 * (vaddr / 2 ^ 22)
            then bit_or (frame table) user_flags
            else l.physical s q)
    set_pde-physical q =
        ap (λ t. l.physical (m.invlpg (pts_window + vaddr / 2 ^ 22 * 4096) t) q) set_pde_lem
        ∙ l.invlpg_physical _ q _
        ∙ l.store_walk (pd_window + 4 * (vaddr / 2 ^ 22)) (bit_or (frame table) user_flags)
            (m.read_cr3 s + 4 * (vaddr / 2 ^ 22)) q s
            (pd_window_lem (l.physical s) (m.read_cr3 s) r (vaddr / 2 ^ 22) (omega arith))

    named_state-cr3 : m.read_cr3 named_state ≡ m.read_cr3 s
    unfolding set_pde_at
    named_state-cr3 = l.invlpg_cr3 _ _ ∙ l.store_cr3 _ _ s

    named_state-InUse : InUse m l named_state (vaddr / 2 ^ 22) table
    named_state-InUse =
        let pd = m.read_cr3 s in
        let last : l.physical named_state (pd + 4092) ≡ l.physical s (pd + 4092) =
          ground (arith, set_pde-physical (pd + 4092)) in
        let mine : l.physical named_state (pd + 4 * (vaddr / 2 ^ 22))
            ≡ bit_or (frame table) user_flags =
          ground (arith, set_pde-physical (pd + 4 * (vaddr / 2 ^ 22))) in
        subst (λ d. HasTable (l.physical named_state) d (vaddr / 2 ^ 22) table)
          (sym named_state-cr3)
          (record {
            recursive = record {
              aligned = r.aligned;
              itself = ap frame last ∙ r.itself;
              present = ap is_present last ∙ r.present;
            };
            named = ap frame mine ∙ frame-entry table user_flags (omega arith) ∙ omega arith;
            there = ap is_present mine ∙ present-entry table user_flags (omega arith) refl;
            aligned = aligned;
            other = other;
            below = omega arith;
          })

    -- The table that is entered is empty.
    pub enter_table-Cleared :
        Cleared m l (vaddr / 2 ^ 22) table 0 1024 named_state (enter_table m vaddr table s)
    unfolding enter_table
    enter_table-Cleared =
        let e : pts_window + vaddr / 2 ^ 22 * 4096 + 4 * 0 ≡ pts_window + vaddr / 2 ^ 22 * 4096 =
          omega arith in
        subst
          (λ p.
            Cleared m l (vaddr / 2 ^ 22) table 0 1024 named_state
              (clear_words m 1024 p named_state))
          e
          (clear_words-Cleared m l (pts_window + vaddr / 2 ^ 22 * 4096) (vaddr / 2 ^ 22) table
            (λ t h j lt'. window_word (vaddr / 2 ^ 22) table j t h lt') 1024 0 named_state
            named_state-InUse (omega arith))

    -- The entry of another page of the table, once `vaddr` is entered.
    empty_entry :
        (phys flags page : ℕ)
        → page / 2 ^ 22 ≡ vaddr / 2 ^ 22
        → page / 2 ^ 12 ≢ vaddr / 2 ^ 12
        → walk
            (l.physical (set_pte_at m pts_window vaddr phys flags (enter_table m vaddr table s)))
            (m.read_cr3 (enter_table m vaddr table s))
            page
          ≡ none
    empty_entry phys flags page same ne =
        let c = enter_table-Cleared in
        let t = enter_table m vaddr table s in
        let pd = m.read_cr3 t in
        let put =
          λ (q : ℕ). set_pte_at-physical m l vaddr phys flags table q t (omega arith) c.in_use in
        walk-empty (l.physical (set_pte_at m pts_window vaddr phys flags t)) pd table page
          (ap frame (
              ap (λ k. l.physical (set_pte_at m pts_window vaddr phys flags t) (pd + 4 * k)) same
              ∙ ground (
                arith,
                put (pd + 4 * (vaddr / 2 ^ 22)),
                c.in_use.aligned,
                c.in_use.recursive.aligned,
                c.in_use.other,
                c.in_use.below,
              ))
            ∙ c.in_use.named)
          (ground (arith, put (table + 4 * (page / 2 ^ 12 % 2 ^ 10)), same, ne)
            ∙ c.zeroed (page / 2 ^ 12 % 2 ^ 10) (omega arith) (omega arith))

    -- A page whose table is new: the processor translates to the page, and to nothing for any other page
    -- of the table.
    pub enter_table-walk :
        (phys flags : ℕ)
        → flags < 4096
        → flags % 2 ≡ 1
        → (other_page : ℕ) → other_page / 2 ^ 22 ≡ vaddr / 2 ^ 22
        → other_page / 2 ^ 12 ≢ vaddr / 2 ^ 12
        → let s' = set_pte_at m pts_window vaddr phys flags (enter_table m vaddr table s) in
          (walk (l.physical s') (m.read_cr3 s') vaddr ≡ some (frame phys + vaddr % 4096))
          × (walk (l.physical s') (m.read_cr3 s') other_page ≡ none)
    enter_table-walk phys flags small odd page same ne =
        let c = enter_table-Cleared in
        let t = enter_table m vaddr table s in
        rw (set_pte_at-cr3 m l vaddr phys flags t) (
          set_pte_at-walk m l vaddr phys flags table t (omega arith) small odd c.in_use,
          empty_entry phys flags page same ne,
        )

  -- A page that the allocator hands out is aligned.
  pub handed_out :
      (p : Pmm) (table : ℕ) (p' : Pmm)
      → IsValid p
      → alloc_page p ≡ some (table, p')
      → table ≢ 0
      → table % 4096 ≡ 0
  handed_out p table p' valid e some_page =
      by_outcome (subst (Outcome p) e (alloc_page_lem p valid))
    where
      by_outcome : Outcome p (some (table, p')) → table % 4096 ≡ 0
      by_outcome (after, inl out) = absurd (some_page out.null)
      by_outcome (after, inr taken) = taken.aligned

  -- `vmm_map_user_page` of a page below the windows that has no page table yet, when the allocator
  -- hands out a page other than the directory: it takes that page for the table, the processor then
  -- translates the page to the physical one, and no other page of the table to anything.
  pub map_user_page-fresh :
      (vaddr phys table page : ℕ) (p' : Pmm) (v : Vmm S)
      → vaddr < pts_window
      → IsRecursive (l.physical v.memory) (m.read_cr3 v.memory)
      → is_present (l.physical v.memory (m.read_cr3 v.memory + 4 * (vaddr / 2 ^ 22))) ≡ false
      → IsValid v.pmm
      → alloc_page v.pmm ≡ some (table, p')
      → table ≢ 0
      → table ≢ m.read_cr3 v.memory
      → page / 2 ^ 22 ≡ vaddr / 2 ^ 22
      → page / 2 ^ 12 ≢ vaddr / 2 ^ 12
      → (w : Vmm S) × (map_user_page m vaddr phys v ≡ some w)
        × (w.pmm ≡ p')
        × (walk (l.physical w.memory) (m.read_cr3 w.memory) vaddr
            ≡ some (frame phys + vaddr % 4096))
        × (walk (l.physical w.memory) (m.read_cr3 w.memory) page ≡ none)
  unfolding map_user_page
  map_user_page-fresh vaddr phys table page p' v lt r absent valid e some_page other same ne =
      let aligned = handed_out v.pmm table p' valid e some_page in
      let (mine, others) =
        enter_table-walk vaddr table v.memory r aligned other lt phys user_flags (omega arith) refl
          page same ne in
      let missing = ap is_present (load-pde m l v.memory r vaddr (omega arith)) ∙ absent in
      let positive : (table == 0) ≡ false = ground arith in
      (
        record v {
          pmm = p';
          memory =
              set_pte_at m pts_window vaddr phys user_flags (enter_table m vaddr table v.memory);
        },
        rw (missing) (rw e (rw positive refl)),
        refl,
        mine,
        others,
      )
