-- ===== src/Vmm/Destroy.antt =====
-- Giving back a directory: `vmm_destroy_address_space` of src/kernel/memory/vmm.c.
use dvivon_os.Vmm.{
  frame, set_pte_at, kernel_scratch_flags, is_present, pd_window, pts_scratch_window, set_pde_at,
  on_memory, pd_scratch_window, Vmm, Mmu,
}
use dvivon_os.Pmm.{free_page}
use dvivon_os.Base.{if◌then◌else◌, ◌*◌, ◌+◌, ℕ, suc, zero}

module _ {S : Type 0} (m : Mmu S) where
  -- The loops of `vmm_destroy_address_space` over the n entries that are left of a table, and of the
  -- directory.
  free_table : (n p : ℕ) → Vmm S → Vmm S
  free_table zero p v = v
  free_table (suc n) p v =
      let pte = m.load p v.memory in
      free_table n (p + 4)
        (if is_present pte then record v { pmm = free_page v.pmm (frame pte) } else v)

  free_tables : (n i : ℕ) → Vmm S → Vmm S
  free_tables zero i v = v
  free_tables (suc n) i v =
      let pde = m.load (pd_scratch_window + 4 * i) v.memory in
      let w = free_table 1024 (pts_scratch_window + 4096 * i) v in
      free_tables n (i + 1)
        (if is_present pde then record w { pmm = free_page w.pmm (frame pde) } else v)

  destroy_address_space : ℕ → Vmm S → Vmm S
  destroy_address_space pd v =
      let shown =
        on_memory m (set_pde_at m pd_window pd_scratch_window pd kernel_scratch_flags) v in
      let w = free_tables 768 0 shown in
      let hidden = on_memory m (set_pte_at m pd_window pd_scratch_window 0 0) w in
      record hidden { pmm = free_page hidden.pmm pd }
