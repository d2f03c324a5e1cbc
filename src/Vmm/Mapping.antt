-- ===== src/Vmm/Mapping.antt =====
-- What `vmm_map_user_page`, `vmm_map_kernel_page` and `vmm_unmap_page` of src/kernel/memory/vmm.c do to
-- the processor's translation.
use dvivon_os.Vmm.Translate.{found_or_zero, virt_to_phys-walk}
use dvivon_os.Vmm.{
  kernel_flags, virt_to_phys, map_kernel_page, is_present, pts_window, frame, set_pte_at,
  unmap_page, Mmu,
}
use dvivon_os.Vmm.Walk.{frame-entry, present-entry, walk, IsMmu, IsRecursive}
use dvivon_os.Base.{
  refl, ap, ◌≢◌, arith, true, bit_or, ◌==◌, if◌then◌else◌, none, some, ◌*◌, ◌∙◌, ◌%◌, ◌+◌, ◌≡◌, ◌<◌,
  ◌^◌, ◌/◌, ℕ,
}
use dvivon_os.Vmm.Windows.{pts_window_lem}

-- Entry i of the directory, which is mapped into itself and is not the last one, names the page table
-- `table`, which is not the directory itself.
pub record HasTable (mem : ℕ → ℕ) (pd i table : ℕ) : Type 0 where
  pub recursive : IsRecursive mem pd
  pub named : frame (mem (pd + 4 * i)) ≡ table
  pub there : is_present (mem (pd + 4 * i)) ≡ true
  pub aligned : table % 4096 ≡ 0
  pub other : table ≢ pd
  pub below : i < 1023

-- The translation with one entry of the table replaced.
walk-entry :
    (mem mem' : ℕ → ℕ) (pd table vaddr w : ℕ)
    → HasTable mem pd (vaddr / 2 ^ 22) table
    → ((q : ℕ) → mem' q ≡ (if q == table + 4 * (vaddr / 2 ^ 12 % 2 ^ 10) then w else mem q))
    → walk mem' pd vaddr ≡ (if is_present w then some (frame w + vaddr % 4096) else none)
walk-entry mem mem' pd table vaddr w h k =
    let slot = table + 4 * (vaddr / 2 ^ 12 % 2 ^ 10) in
    let pde : mem' (pd + 4 * (vaddr / 2 ^ 22)) ≡ mem (pd + 4 * (vaddr / 2 ^ 22)) =
      ground
        (arith, k (pd + 4 * (vaddr / 2 ^ 22)), h.aligned, h.recursive.aligned, h.other, h.below) in
    let pte : mem' slot ≡ w = ground (arith, k slot) in
    rw pde (rw h.there (rw h.named (rw pte refl)))

module _ {S : Type 0} (m : Mmu S) (l : IsMmu m) where
  -- The state of the directory that is in use.
  abbrev pub InUse : S → (i table : ℕ) → Type 0
  InUse s i table = HasTable (l.physical s) (m.read_cr3 s) i table

  pub set_pte_at-physical :
      (vaddr phys flags table q : ℕ) (s : S)
      → vaddr < 2 ^ 32
      → InUse s (vaddr / 2 ^ 22) table
      → l.physical (set_pte_at m pts_window vaddr phys flags s) q ≡ (
          if q == table + 4 * (vaddr / 2 ^ 12 % 2 ^ 10)
          then bit_or (frame phys) flags
          else l.physical s q)
  unfolding set_pte_at
  set_pte_at-physical vaddr phys flags table q s lt h =
      let i : vaddr / 2 ^ 12 / 1024 ≡ vaddr / 2 ^ 22 = omega arith in
      let a : (pts_window + 4 * (vaddr / 2 ^ 12)) % 2 ^ 32 ≡ pts_window + 4 * (vaddr / 2 ^ 12) =
        omega arith in
      let at =
        pts_window_lem (l.physical s) (m.read_cr3 s) h.recursive (vaddr / 2 ^ 12) (omega arith)
          (rw i h.there) in
      let there =
        at
        ∙ ap
            (λ k.
              some (frame (l.physical s (m.read_cr3 s + 4 * k)) + 4 * (vaddr / 2 ^ 12 % 2 ^ 10)))
            i
        ∙ ap (λ k. some (k + 4 * (vaddr / 2 ^ 12 % 2 ^ 10))) h.named in
      rw a (
        l.invlpg_physical vaddr q _
        ∙ l.store_walk (pts_window + 4 * (vaddr / 2 ^ 12)) (bit_or (frame phys) flags)
            (table + 4 * (vaddr / 2 ^ 12 % 2 ^ 10)) q s there)

  pub set_pte_at-cr3 :
      (vaddr phys flags : ℕ) (s : S)
      → m.read_cr3 (set_pte_at m pts_window vaddr phys flags s) ≡ m.read_cr3 s
  unfolding set_pte_at
  set_pte_at-cr3 vaddr phys flags s = l.invlpg_cr3 vaddr _ ∙ l.store_cr3 _ _ s

  -- A page entered in its table is where the processor translates to.
  pub set_pte_at-walk :
      (vaddr phys flags table : ℕ) (s : S)
      → vaddr < 2 ^ 32
      → flags < 4096
      → flags % 2 ≡ 1
      → InUse s (vaddr / 2 ^ 22) table
      → walk (l.physical (set_pte_at m pts_window vaddr phys flags s)) (m.read_cr3 s) vaddr
        ≡ some (frame phys + vaddr % 4096)
  set_pte_at-walk vaddr phys flags table s lt small odd h =
      walk-entry (l.physical s) (l.physical (set_pte_at m pts_window vaddr phys flags s))
        (m.read_cr3 s) table vaddr (bit_or (frame phys) flags) h
        (λ q. set_pte_at-physical vaddr phys flags table q s lt h)
      ∙ rw (present-entry phys flags small odd)
          (ap (λ f. some (f + vaddr % 4096)) (frame-entry phys flags small))

  -- An unmapped page is translated no more.
  pub unmap_page-walk :
      (vaddr table : ℕ) (s : S)
      → vaddr < 2 ^ 32
      → InUse s (vaddr / 2 ^ 22) table
      → walk (l.physical (unmap_page m vaddr s)) (m.read_cr3 (unmap_page m vaddr s)) vaddr ≡ none
  unfolding unmap_page
  unmap_page-walk vaddr table s lt h = rw (set_pte_at-cr3 vaddr 0 0 s) (
      walk-entry (l.physical s) (l.physical (set_pte_at m pts_window vaddr 0 0 s)) (m.read_cr3 s)
        table vaddr (bit_or (frame 0) 0) h (λ q. set_pte_at-physical vaddr 0 0 table q s lt h))

  -- `vmm_map_kernel_page`, then `vmm_virt_to_phys`, of a 32-bit address: the physical page comes back,
  -- with the offset of the address, over a directory that is mapped into itself, where the page table
  -- of the address is there, is aligned and is not the directory, and the address is below the last
  -- 4 MiB.
  pub virt_to_phys-map_kernel_page :
      (vaddr phys table : ℕ) (s : S)
      → vaddr < 2 ^ 32
      → InUse s (vaddr / 2 ^ 22) table
      → virt_to_phys m vaddr (map_kernel_page m vaddr phys s) ≡ frame phys + vaddr % 4096
  unfolding map_kernel_page
  virt_to_phys-map_kernel_page vaddr phys table s lt h =
      let s' = set_pte_at m pts_window vaddr phys kernel_flags s in
      let e = set_pte_at-cr3 vaddr phys kernel_flags s in
      let put = λ (q : ℕ). set_pte_at-physical vaddr phys kernel_flags table q s lt h in
      let last : l.physical s' (m.read_cr3 s + 4092) ≡ l.physical s (m.read_cr3 s + 4092) =
        ground (arith, put (m.read_cr3 s + 4092), h.aligned, h.recursive.aligned, h.other) in
      let r : IsRecursive (l.physical s') (m.read_cr3 s') = rw e (record {
        aligned = h.recursive.aligned;
        itself = ap frame last ∙ h.recursive.itself;
        present = ap is_present last ∙ h.recursive.present;
      }) in
      (virt_to_phys-walk m l s' r vaddr lt).0
      ∙ ap found_or_zero (
          ap (λ pd. walk (l.physical s') pd vaddr) e
          ∙ set_pte_at-walk vaddr phys kernel_flags table s lt (omega arith) refl h)
