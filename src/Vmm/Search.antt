-- ===== src/Vmm/Search.antt =====
-- The search of `vmm_alloc_kernel_page` in src/kernel/memory/vmm.c as a whole.
use dvivon_os.Base.{ltb, ◌^◌, arith, refl, ◌+◌, inr, inl, false, ◌%◌, none, ◌≡◌, some, ℕ, Option}
use dvivon_os.Vmm.{
  frame, clamp, alloc_kernel_page, search_pages, Vmm, Mmu, Ended, ended, page_fault, out_of_fuel,
}
use dvivon_os.Vmm.Rounds.{search-none, search-first, Searched, Round}
use dvivon_os.Pmm.Outcome.{alloc_page_lem, Outcome}
use dvivon_os.Pmm.{alloc_page, Pmm}
use dvivon_os.Pmm.Alloc.{IsValid}

module _ {S : Type 0} (m : Mmu S) where
  module _ (start : ℕ) where
    module _ (v : Vmm S) where
      search-Searched :
          (o : Option (ℕ × Pmm))
          → alloc_page v.pmm ≡ o
          → Outcome v.pmm o
          → IsValid v.pmm
          → Round m start 0 start
          → Searched m start v (search_pages m (2 ^ 20) start start v)
      search-Searched none e h valid r = absurd h
      search-Searched (some (phys, pmm)) e (ok, inl x) valid r =
          let same : alloc_page v.pmm ≡ some (0, v.pmm) = ground (arith, e, x.null, x.same) in
          rw (search-none m start v (2 ^ 20) 0 start same r refl)
            (valid, inl (refl, refl, refl, inl same))
      search-Searched (some (phys, pmm)) e (ok, inr x) valid r =
          search-first m start v valid phys pmm ok e (ground (arith, x.not_null)) (2 ^ 20) 0 start r
            refl (λ n lt. absurd (omega arith))

  -- Where the search starts.
  abbrev pub first_page : ℕ → ℕ
  first_page last_free = frame ((clamp m last_free + 4095) % 2 ^ 32)

  -- Over a valid page allocator and with no page in the free list, `vmm_alloc_kernel_page` looks for
  -- the first page, from `last_free` on and once round the 2^20 pages, that is not mapped. It gives
  -- that page, with a page of `pmm_alloc_page` entered for it and cleared; or it faults there, where
  -- the directory names no page table for it; or it gives 0 and changes neither memory nor the page
  -- allocator, because that has no page or every page is mapped.
  pub alloc_kernel_page-Searched :
      (v : Vmm S)
      → IsValid v.pmm
      → v.count ≡ 0
      → Searched m (first_page v.last_free) v (alloc_kernel_page m v)
  unfolding alloc_kernel_page
  alloc_kernel_page-Searched v valid none_waits =
      let no_page : ltb 0 v.count ≡ false = ground arith in
      let last = clamp m v.last_free in
      let start = first_page v.last_free in
      let found = record v { last_free = last } in
      rw no_page (
        same start (search_pages m (2 ^ 20) start start found) (
          search-Searched start found (alloc_page v.pmm) refl (alloc_page_lem v.pmm valid) valid
            (record {
              aligned = omega arith;
              small = omega arith;
              here = omega arith;
              below = omega arith;
            })))
    where
      same :
          (start : ℕ) (o : Ended (ℕ × Vmm S))
          → Searched m start (record v { last_free = clamp m v.last_free }) o
          → Searched m start v o
      same start out_of_fuel h = h
      same start (page_fault r) h = h
      same start (ended (r, w)) (ok, inl h) = (ok, inl h)
      same start (ended (r, w)) (ok, inr (first, e)) = (
        ok,
        inr (
          first,
          record {
            phys = e.phys;
            handed_out = e.handed_out;
            not_null = e.not_null;
            table = e.table;
            entered = e.entered;
          },
        ),
      )
