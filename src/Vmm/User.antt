-- ===== src/Vmm/User.antt =====
-- Pages of a process: `vmm_alloc_user_page_at` and `vmm_free_user_page` of src/kernel/memory/vmm.c.
use dvivon_os.Base.{false, true, ◌==◌, Bool, if◌then◌else◌, Option, ℕ, none, some}
use dvivon_os.Vmm.{clear_words, on_memory, map_user_page, unmap_page, virt_to_phys, Vmm, Mmu}
use dvivon_os.Pmm.{free_page, alloc_page}

module _ {S : Type 0} (m : Mmu S) where
  alloc_user_page_at : ℕ → Vmm S → Option (Bool × Vmm S)
  alloc_user_page_at vaddr v = elim (alloc_page v.pmm) [
    | none ↦ none
    | some (phys, pmm) ↦
        let mapped : Option (Bool × Vmm S) =
          elim (map_user_page m vaddr phys (record v { pmm = pmm })) [
            | none ↦ none
            | some w ↦ some (true, on_memory m (clear_words m 1024 vaddr) w)
          ] in
        if phys == 0 then some (false, record v { pmm = pmm }) else mapped
  ]

  free_user_page : ℕ → Vmm S → Vmm S
  free_user_page vaddr v =
      let phys = virt_to_phys m vaddr v.memory in
      if phys == 0
      then v
      else record v { memory = unmap_page m vaddr v.memory; pmm = free_page v.pmm phys }
