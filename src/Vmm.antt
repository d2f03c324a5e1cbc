-- ===== src/Vmm.antt =====
-- src/kernel/memory/vmm.c: page directories and page tables through the windows of a recursive mapping.
-- The memory behind the processor's translation is a parameter: words of 32 bits at virtual
-- addresses, the register CR3, and the instruction that drops a translation. `none` means that the
-- search for a physical page ran out of fuel.
pub mod Walk
pub mod Windows
pub mod Translate
pub mod Mapping
pub mod Page
pub mod Fresh
pub mod Copy
pub mod Space
mod Release
mod User
mod Destroy
pub mod Rounds
pub mod Search
mod Ram
mod Tests
use dvivon_os.Base.{
  false, true, ◌||◌, leb, ltb, not, some, zero, ◌%◌, ◌*◌, ◌-◌, ◌==◌, ◌^◌, Bool, bit_or,
  if◌then◌else◌, none, suc, ◌+◌, ◌/◌, Option, ℕ,
}
use dvivon_os.Base.Bits.{bit}
use dvivon_os.Pmm.{alloc_page, Pmm}

abbrev pub page_size : ℕ
page_size = 4096

abbrev pub kernel_higher_half : ℕ
kernel_higher_half = 0xc0000000

abbrev pub pd_window : ℕ
pd_window = 0xfffff000

abbrev pub pts_window : ℕ
pts_window = 0xffc00000

abbrev pub pd_scratch_window : ℕ
pd_scratch_window = 0xffffe000

abbrev pub pts_scratch_window : ℕ
pts_scratch_window = 0xff800000

-- `PAGE_PRESENT | PAGE_RW`, with `PAGE_USER` or with `PAGE_GLOBAL`.
abbrev pub kernel_scratch_flags : ℕ
kernel_scratch_flags = 0x003

abbrev pub user_flags : ℕ
user_flags = 0x007

abbrev pub kernel_flags : ℕ
kernel_flags = 0x103

abbrev pub free_list_max_size : ℕ
free_list_max_size = 128

-- `x & 0xFFFFF000` and `x & PAGE_PRESENT`
abbrev pub frame : ℕ → ℕ
frame x = x / 4096 * 4096

abbrev pub is_present : ℕ → Bool
is_present x = bit x 0

-- The processor as this file uses it.
pub record Mmu (S : Type 0) : Type 0 where
  pub load : ℕ → S → ℕ
  pub store : ℕ → ℕ → S → S
  pub invlpg : ℕ → S → S
  pub read_cr3 : S → ℕ
  pub write_cr3 : ℕ → S → S

-- The page allocator, the memory, `free_list` and `last_free`.
pub record Vmm (S : Type 0) : Type 0 where
  pub pmm : Pmm
  pub memory : S
  pub head : ℕ
  pub tail : ℕ
  pub count : ℕ
  pub last_free : ℕ

-- How the allocation of a kernel page ends: with a result, with a page fault for want of a page table
-- for the address, or without fuel.
pub data Ended (A : Type 0) : Type 0 where
  ended : A → Ended A
  page_fault : (vaddr : ℕ) → Ended A
  out_of_fuel : Ended A

module _ {S : Type 0} (m : Mmu S) where
  abbrev pub on_memory : (S → S) → Vmm S → Vmm S
  on_memory f v = record v { memory = f v.memory }

  pub switch_address_space : ℕ → S → S
  switch_address_space phys s =
      let s' = m.write_cr3 phys s in if phys == 0 then s else m.write_cr3 (m.read_cr3 s') s'

  -- A `free_list_node_t` is two words, `next` and `prev`.
  pub free_list_pop : Vmm S → ℕ × Vmm S
  free_list_pop v =
      let node = v.tail in
      let tail = m.load (node + 4) v.memory in
      let s = if tail == 0 then v.memory else m.store tail 0 v.memory in
      let head = if tail == 0 then 0 else v.head in
      let s' = m.store node 0 (m.store (node + 4) 0 s) in
      if v.tail == 0 then (0, v) else (
        node,
        record v { memory = s'; head = head; tail = tail; count = (v.count + 2 ^ 32 - 1) % 2 ^ 32 },
      )

  abbrev pub pde_at : ℕ → ℕ
  pde_at vaddr = pd_window + 4 * (vaddr / 2 ^ 22)

  abbrev pub pte_at : ℕ → ℕ
  pte_at vaddr = pts_window + 4 * (vaddr / 2 ^ 12)

  pub virt_to_phys : ℕ → S → ℕ
  virt_to_phys vaddr s =
      let pte = m.load (pte_at vaddr) s in
      if not (is_present (m.load (pde_at vaddr) s))
      then 0
      else if not (is_present pte)
      then 0
      else frame pte + vaddr % 4096

  pub is_mapped : ℕ → S → Bool
  is_mapped vaddr s =
      if not (is_present (m.load (pde_at vaddr) s))
      then false
      else is_present (m.load (pte_at vaddr) s)

  pub set_pde_at : (window vaddr paddr flags : ℕ) → S → S
  set_pde_at window vaddr paddr flags s =
      m.store ((window + 4 * (vaddr / 2 ^ 22)) % 2 ^ 32) (bit_or (frame paddr) flags) s

  pub set_pte_at : (window vaddr paddr flags : ℕ) → S → S
  set_pte_at window vaddr paddr flags s =
      let s' = m.store ((window + 4 * (vaddr / 2 ^ 12)) % 2 ^ 32) (bit_or (frame paddr) flags) s in
      if window == pts_window then m.invlpg vaddr s' else s'

  pub map_kernel_page : (vaddr phys : ℕ) → S → S
  unfolding set_pte_at
  map_kernel_page vaddr phys s = set_pte_at pts_window vaddr phys kernel_flags s

  pub unmap_page : ℕ → S → S
  unfolding set_pte_at
  unmap_page vaddr s = set_pte_at pts_window vaddr 0 0 s

  -- `memset(p, 0, 4 * n)`, by words.
  pub clear_words : (n p : ℕ) → S → S
  clear_words zero p s = s
  clear_words (suc n) p s = clear_words n (p + 4) (m.store p 0 s)

  -- The new page table of `vmm_map_user_page`.
  pub enter_table : (vaddr table : ℕ) → S → S
  enter_table vaddr table s =
      let pt = pts_window + vaddr / 2 ^ 22 * page_size in
      clear_words 1024 pt (m.invlpg pt (set_pde_at pd_window vaddr table user_flags s))

  pub map_user_page : (vaddr phys : ℕ) → Vmm S → Option (Vmm S)
  map_user_page vaddr phys v =
      let enter = set_pte_at pts_window vaddr phys user_flags in
      if is_present (m.load (pde_at vaddr) v.memory)
      then some (on_memory enter v)
      else elim (alloc_page v.pmm) [
        | none ↦ none
        | some (table, pmm) ↦
            if table == 0
            then some (record v { pmm = pmm })
            else some (record v { pmm = pmm; memory = enter (enter_table vaddr table v.memory) })
      ]

  -- `vmm_alloc_kernel_page_at`: the store of `vmm_map_kernel_page` to the window of the page tables
  -- faults where the directory names no table for the address.
  pub alloc_kernel_page_at : ℕ → Vmm S → Ended (Bool × Vmm S)
  alloc_kernel_page_at vaddr v = elim (alloc_page v.pmm) [
    | none ↦ out_of_fuel
    | some (phys, pmm) ↦
        if phys == 0
        then ended (false, record v { pmm = pmm })
        else if is_present (m.load (pde_at vaddr) v.memory)
        then ended (
          true,
          record v {
            pmm = pmm;
            memory = clear_words 1024 vaddr (map_kernel_page vaddr phys v.memory);
          },
        )
        else page_fault vaddr
  ]

  -- The `do … while (i != start)` of `vmm_alloc_kernel_page`; a pointer of 32 bits never reaches
  -- `MEMORY_SPACE`, so that the test that would go back to the kernel's half is never met.
  pub search_pages : (fuel start i : ℕ) → Vmm S → Ended (ℕ × Vmm S)
  search_pages zero start i v = out_of_fuel
  search_pages (suc fuel) start i v =
      let j = if leb (2 ^ 32) i then kernel_higher_half else i in
      let next = (j + page_size) % 2 ^ 32 in
      let tried = if is_mapped j v.memory then ended (false, v) else alloc_kernel_page_at j v in
      elim tried [
        | out_of_fuel ↦ out_of_fuel
        | page_fault a ↦ page_fault a
        | ended (true, w) ↦ ended (j, w)
        | ended (false, w) ↦
            let rest = search_pages fuel start next w in
            if next == start then ended (0, w) else rest
      ]

  abbrev pub clamp : ℕ → ℕ
  clamp last = if ltb last kernel_higher_half || leb (2 ^ 32) last then kernel_higher_half else last

  -- `vmm_alloc_kernel_page`
  pub alloc_kernel_page : Vmm S → Ended (ℕ × Vmm S)
  alloc_kernel_page v =
      let last = clamp v.last_free in
      let start = frame ((last + (page_size - 1)) % 2 ^ 32) in
      let found = search_pages (2 ^ 20) start start (record v { last_free = last }) in
      if ltb 0 v.count then ended (free_list_pop v) else found

  -- `new_pd[i] = current_pd[i]` for n entries from i on.
  pub copy_entries : (n i : ℕ) → S → S
  copy_entries zero i s = s
  copy_entries (suc n) i s =
      copy_entries n (i + 1) (m.store (pd_scratch_window + 4 * i) (m.load (pd_window + 4 * i) s) s)

  -- What `vmm_create_address_space` writes for a new directory.
  pub fill_directory : ℕ → S → S
  fill_directory new s =
      let entry = bit_or new kernel_flags in
      let shown = m.invlpg pd_scratch_window (m.store (pd_window + 4 * 1022) entry s) in
      let filled = copy_entries 254 768 (clear_words 768 pd_scratch_window shown) in
      let own = m.store (pd_scratch_window + 4 * 1023) entry filled in
      m.invlpg pd_scratch_window (m.store (pd_window + 4 * 1022) 0 own)

  pub create_address_space : Vmm S → Option (ℕ × Vmm S)
  create_address_space v = elim (alloc_page v.pmm) [
    | none ↦ none
    | some (new, pmm) ↦
        if new == 0
        then some (0, record v { pmm = pmm })
        else some (new, record v { pmm = pmm; memory = fill_directory new v.memory })
  ]
