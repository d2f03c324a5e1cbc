-- ===== src/Vmm/Translate.antt =====
-- `vmm_virt_to_phys` and `vmm_is_mapped` of src/kernel/memory/vmm.c against the processor's translation.
use dvivon_os.Base.{
  refl, inr, inl, Bool-cases, subst, arith, ◌%◌, not, ◌/◌, if◌then◌else◌, ◌*◌, ◌+◌, ◌≡◌, true, ◌^◌,
  false, none, ◌<◌, Bool, some, ℕ, Option,
}
use dvivon_os.Vmm.Windows.{pts_window_lem, pd_window_lem}
use dvivon_os.Vmm.{frame, pte_at, is_present, pde_at, is_mapped, virt_to_phys, Mmu}
use dvivon_os.Vmm.Walk.{walk, IsRecursive, IsMmu}

abbrev pub found_or_zero : Option ℕ → ℕ
found_or_zero none = 0
found_or_zero (some p) = p

abbrev pub is_found : Option ℕ → Bool
is_found none = false
is_found (some p) = true

module _ {S : Type 0} (m : Mmu S) (l : IsMmu m) (s : S)
    (r : IsRecursive (l.physical s) (m.read_cr3 s)) where
  -- The words that the windows show.
  pub load-pde :
      (vaddr : ℕ)
      → vaddr < 2 ^ 32
      → m.load (pde_at m vaddr) s ≡ l.physical s (m.read_cr3 s + 4 * (vaddr / 2 ^ 22))
  load-pde vaddr lt =
      l.load_walk (pde_at m vaddr) (m.read_cr3 s + 4 * (vaddr / 2 ^ 22)) s
        (pd_window_lem (l.physical s) (m.read_cr3 s) r (vaddr / 2 ^ 22) (omega arith))

  pub load-pte :
      (vaddr : ℕ)
      → vaddr < 2 ^ 32
      → is_present (l.physical s (m.read_cr3 s + 4 * (vaddr / 2 ^ 22))) ≡ true
      → m.load (pte_at m vaddr) s
        ≡ l.physical s (
            frame (l.physical s (m.read_cr3 s + 4 * (vaddr / 2 ^ 22)))
            + 4 * (vaddr / 2 ^ 12 % 2 ^ 10))
  load-pte vaddr lt h =
      let e : vaddr / 2 ^ 12 / 1024 ≡ vaddr / 2 ^ 22 = omega arith in
      l.load_walk (pte_at m vaddr) _ s (
        subst
          (λ i.
            is_present (l.physical s (m.read_cr3 s + 4 * i)) ≡ true
            → walk (l.physical s) (m.read_cr3 s) (pte_at m vaddr)
              ≡ some (frame (l.physical s (m.read_cr3 s + 4 * i)) + 4 * (vaddr / 2 ^ 12 % 2 ^ 10)))
          e (pts_window_lem (l.physical s) (m.read_cr3 s) r (vaddr / 2 ^ 12) (omega arith)) h)

  -- `vmm_virt_to_phys` gives the address to which the processor translates, and 0 where there is none;
  -- `vmm_is_mapped` tells whether there is one.
  pub virt_to_phys-walk :
      (vaddr : ℕ)
      → vaddr < 2 ^ 32
      → (virt_to_phys m vaddr s ≡ found_or_zero (walk (l.physical s) (m.read_cr3 s) vaddr))
        × (is_mapped m vaddr s ≡ is_found (walk (l.physical s) (m.read_cr3 s) vaddr))
  unfolding virt_to_phys is_mapped
  virt_to_phys-walk vaddr lt =
      elim (Bool-cases (is_present (l.physical s (m.read_cr3 s + 4 * (vaddr / 2 ^ 22))))) [
        | inl there ↦ rw (load-pde vaddr lt) (
            rw there (
              rw (load-pte vaddr lt there) (
                by_entry (
                  l.physical s (
                    frame (l.physical s (m.read_cr3 s + 4 * (vaddr / 2 ^ 22)))
                    + 4 * (vaddr / 2 ^ 12 % 2 ^ 10))))))
        | inr absent ↦ rw (load-pde vaddr lt) (rw absent (refl, refl))
      ]
    where
      by_entry :
          (pte : ℕ)
          → ((if not (is_present pte) then 0 else frame pte + vaddr % 4096)
              ≡ found_or_zero (if is_present pte then some (frame pte + vaddr % 4096) else none))
            × (is_present pte
                ≡ is_found (if is_present pte then some (frame pte + vaddr % 4096) else none))
      by_entry pte = (ground arith, ground arith)
