-- ===== src/Vmm/Release.antt =====
-- Freeing a page of the kernel: `vmm_free_kernel_page` of src/kernel/memory/vmm.c.
use dvivon_os.Pmm.{free_page}
use dvivon_os.Vmm.{unmap_page, virt_to_phys, free_list_pop, free_list_max_size, page_size, Vmm, Mmu}
use dvivon_os.Base.{◌^◌, ltb, ◌%◌, ◌==◌, if◌then◌else◌, Option, ◌+◌, ℕ, none, some, suc, zero}

module _ {S : Type 0} (m : Mmu S) where
  free_list_add : ℕ → Vmm S → Vmm S
  free_list_add node v =
      let s = m.store (node + 4) 0 (m.store node v.head v.memory) in
      if v.head == 0
      then record v { memory = s; head = node; tail = node; count = (v.count + 1) % 2 ^ 32 }
      else record v {
        memory = m.store (v.head + 4) node s;
        head = node;
        count = (v.count + 1) % 2 ^ 32;
      }

  -- The loop of `vmm_free_kernel_page`; each round takes a page off the list.
  trim : (fuel : ℕ) → Vmm S → Option (Vmm S)
  trim zero v = if ltb free_list_max_size v.count then none else some v
  trim (suc fuel) v =
      let (node, w) = free_list_pop m v in
      let phys = virt_to_phys m node w.memory in
      let freed = record w { memory = unmap_page m node w.memory; pmm = free_page w.pmm phys } in
      let rest = trim fuel (if phys == 0 then w else freed) in
      if ltb free_list_max_size v.count then (if node == 0 then some w else rest) else some v

  free_kernel_page : ℕ → Vmm S → Option (Vmm S)
  free_kernel_page vaddr v =
      let trimmed = trim (v.count + 1) (free_list_add vaddr v) in
      if vaddr % page_size == 0 then trimmed else some v
