-- ===== src/Vmm/Rounds.antt =====
-- The rounds of the search of `vmm_alloc_kernel_page` in src/kernel/memory/vmm.c: it goes once round the
-- 2^20 pages of the address space, up to the first one that is not mapped.
use dvivon_os.Base.{
  ap, ==_iff, zero, subst, sym, leb, suc, ◌*◌, ◌<◌, ◌^◌, arith, refl, ◌+◌, inr, inl, Bool-cases,
  false, ◌==◌, if◌then◌else◌, true, ◌%◌, ◌⊎◌, ◌≡◌, ◌∙◌, some, Bool, ℕ,
}
use dvivon_os.Vmm.{
  kernel_higher_half, search_pages, map_kernel_page, clear_words, is_mapped, is_present, pde_at,
  Vmm, alloc_kernel_page_at, Mmu, Ended, ended, page_fault, out_of_fuel,
}
use native.Mathlib.Decide.{dec_lt}
use dvivon_os.Pmm.{alloc_page, Pmm}
use dvivon_os.Pmm.Alloc.{IsValid}

module _ {S : Type 0} (m : Mmu S) where
  -- The page that the search looks at in round k, counted from 0.
  abbrev pub page_at : (start k : ℕ) → ℕ
  page_at start k = (start + 4096 * k) % 2 ^ 32

  -- The first page from `start` on, round the address space, that is not mapped in s.
  pub record IsFirst (start : ℕ) (s : S) (r : ℕ) : Type 0 where
    pub aligned : r % 4096 ≡ 0
    pub unmapped : is_mapped m r s ≡ false
    pub rounds : ℕ
    pub reached : r ≡ page_at start rounds
    pub before : (k : ℕ) → k < rounds → is_mapped m (page_at start k) s ≡ true

  -- The state in which `pmm_alloc_page` has handed out a page, and that page is entered for the address
  -- r, whose page table is there, and cleared.
  pub record IsEntered (v : Vmm S) (r : ℕ) (w : Vmm S) : Type 0 where
    pub phys : ℕ
    pub handed_out : alloc_page v.pmm ≡ some (phys, w.pmm)
    pub not_null : (phys == 0) ≡ false
    pub table : is_present (m.load (pde_at m r) v.memory) ≡ true
    pub entered : w.memory ≡ clear_words m 1024 r (map_kernel_page m r phys v.memory)

  -- Why there is no page: the page allocator has none, or every page of the address space is mapped.
  abbrev pub IsFull : ℕ → Vmm S → Type 0
  IsFull start v =
      (alloc_page v.pmm ≡ some (0, v.pmm))
      ⊎ ((k : ℕ) → k < 2 ^ 20 → is_mapped m (page_at start k) v.memory ≡ true)

  -- How a search from `start` in the state v ends.
  abbrev pub Searched : (start : ℕ) → Vmm S → Ended (ℕ × Vmm S) → Type 0
  Searched start v out_of_fuel = ⊥
  Searched start v (page_fault r) =
      IsFirst start v.memory r × (is_present (m.load (pde_at m r) v.memory) ≡ false)
  Searched start v (ended (r, w)) =
      IsValid w.pmm
      × (((r ≡ 0) × (w.pmm ≡ v.pmm) × (w.memory ≡ v.memory) × IsFull start v)
          ⊎ (IsFirst start v.memory r × IsEntered v r w))

  -- The attempt that one round makes, and what the round comes to.
  abbrev attempt : ℕ → Vmm S → Ended (Bool × Vmm S)
  attempt j v = if is_mapped m j v.memory then ended (false, v) else alloc_kernel_page_at m j v

  after_round : (fuel start : ℕ) → ℕ → Vmm S → Ended (Bool × Vmm S) → Ended (ℕ × Vmm S)
  after_round fuel start j v o = elim o [
    | out_of_fuel ↦ out_of_fuel
    | page_fault a ↦ page_fault a
    | ended (true, w) ↦ ended (j, w)
    | ended (false, w) ↦
        let r = search_pages m fuel start ((j + 4096) % 2 ^ 32) w in
        if (j + 4096) % 2 ^ 32 == start then ended (0, w) else r
  ]

  search-step :
      (fuel start i : ℕ) (v : Vmm S)
      → i < 2 ^ 32
      → search_pages m (suc fuel) start i v ≡ after_round fuel start i v (attempt i v)
  unfolding search_pages after_round
  search-step fuel start i v small =
      let e : (if leb (2 ^ 32) i then kernel_higher_half else i) ≡ i = ground arith in
      ap (λ j. after_round fuel start j v (attempt j v)) e

  after-failed :
      (fuel start i : ℕ) (v : Vmm S)
      → after_round fuel start i v (ended (false, v)) ≡ (
          if (i + 4096) % 2 ^ 32 == start
          then ended (0, v)
          else search_pages m fuel start ((i + 4096) % 2 ^ 32) v)
  unfolding after_round
  after-failed fuel start i v = refl

  -- Round k of the search, which has come to the page i.
  pub record Round (start k i : ℕ) : Type 0 where
    pub aligned : start % 4096 ≡ 0
    pub small : start < 2 ^ 32
    pub here : i ≡ page_at start k
    pub below : k < 2 ^ 20

  module _ (start : ℕ) where
    next-Round :
        (k i : ℕ)
        → Round start k i
        → ((i + 4096) % 2 ^ 32 == start) ≡ false
        → Round start (suc k) ((i + 4096) % 2 ^ 32)
    next-Round k i r further = record {
      aligned = r.aligned;
      small = r.small;
      here = omega (arith, r.here);
      below = ground (arith, r.aligned, r.small, r.here, r.below);
    }

    closes : (k i : ℕ) → Round start k i → ((i + 4096) % 2 ^ 32 == start) ≡ true → suc k ≡ 2 ^ 20
    closes k i r back =
        let e = (==_iff ((i + 4096) % 2 ^ 32) start).0 back in
        omega (arith, r.aligned, r.small, r.here, r.below)

    module _ (v : Vmm S) where
      -- Without a physical page every round fails.
      attempt-none : (j : ℕ) → alloc_page v.pmm ≡ some (0, v.pmm) → attempt j v ≡ ended (false, v)
      unfolding alloc_kernel_page_at
      attempt-none j e = elim (Bool-cases (is_mapped m j v.memory)) [
        | inl mapped ↦ rw mapped refl
        | inr free ↦ rw (free, alloc_kernel_page_at) (rw (e, alloc_kernel_page_at) refl)
      ]

      pub search-none :
          (fuel k i : ℕ)
          → alloc_page v.pmm ≡ some (0, v.pmm)
          → Round start k i
          → fuel + k ≡ 2 ^ 20
          → search_pages m fuel start i v ≡ ended (0, v)
      search-none zero k i e r sum = absurd (omega (arith, r.below))
      search-none (suc fuel) k i e r sum =
          search-step fuel start i v (omega (arith, r.here))
          ∙ ap (after_round fuel start i v) (attempt-none i e)
          ∙ after-failed fuel start i v
          ∙ elim (Bool-cases ((i + 4096) % 2 ^ 32 == start)) [
            | inl back ↦ rw back refl
            | inr further ↦ rw further (
                search-none fuel (suc k) ((i + 4096) % 2 ^ 32) e (next-Round k i r further)
                  (omega arith))
          ]

      -- With one, the search ends at the first page that is not mapped.
      module _ (valid : IsValid v.pmm) (phys : ℕ) (pmm : Pmm) (valid' : IsValid pmm)
          (page : alloc_page v.pmm ≡ some (phys, pmm)) (some_page : (phys == 0) ≡ false) where
        abbrev after : ℕ → Vmm S
        after j = record v {
          pmm = pmm;
          memory = clear_words m 1024 j (map_kernel_page m j phys v.memory);
        }

        attempt-entered :
            (j : ℕ)
            → is_mapped m j v.memory ≡ false
            → is_present (m.load (pde_at m j) v.memory) ≡ true
            → attempt j v ≡ ended (true, after j)
        unfolding alloc_kernel_page_at
        attempt-entered j free there =
            rw (free, alloc_kernel_page_at)
              (rw (page, alloc_kernel_page_at) (rw (some_page, there) refl))

        attempt-fault :
            (j : ℕ)
            → is_mapped m j v.memory ≡ false
            → is_present (m.load (pde_at m j) v.memory) ≡ false
            → attempt j v ≡ page_fault j
        unfolding alloc_kernel_page_at
        attempt-fault j free absent =
            rw (free, alloc_kernel_page_at)
              (rw (page, alloc_kernel_page_at) (rw (some_page, absent) refl))

        unmapped-Searched :
            (fuel k i : ℕ)
            → Round start k i
            → ((n : ℕ) → n < k → is_mapped m (page_at start n) v.memory ≡ true)
            → is_mapped m i v.memory ≡ false
            → Searched start v (after_round fuel start i v (attempt i v))
        unfolding after_round
        unmapped-Searched fuel k i r mapped free =
            let first : IsFirst start v.memory i = record {
              aligned = omega (arith, r.aligned, r.here);
              unmapped = free;
              rounds = k;
              reached = r.here;
              before = mapped;
            } in
            let ends =
              λ (o : Ended (Bool × Vmm S)). Searched start v (after_round fuel start i v o) in
            elim (Bool-cases (is_present (m.load (pde_at m i) v.memory))) [
              | inl there ↦ subst ends (sym (attempt-entered i free there)) (
                valid',
                inr (
                  first,
                  record {
                    phys = phys;
                    handed_out = page;
                    not_null = some_page;
                    table = there;
                    entered = refl;
                  },
                ),
              )
              | inr absent ↦ subst ends (sym (attempt-fault i free absent)) (first, absent)
            ]

        pub search-first :
            (fuel k i : ℕ)
            → Round start k i
            → fuel + k ≡ 2 ^ 20
            → ((n : ℕ) → n < k → is_mapped m (page_at start n) v.memory ≡ true)
            → Searched start v (search_pages m fuel start i v)
        search-first zero k i r sum mapped = absurd (omega (arith, r.below))
        search-first (suc fuel) k i r sum mapped =
            subst (Searched start v) (sym (search-step fuel start i v (omega (arith, r.here))))
              (elim (Bool-cases (is_mapped m i v.memory)) [
                | inr free ↦ unmapped-Searched fuel k i r mapped free
                | inl taken ↦ rw taken (
                    rw (after-failed fuel start i v)
                      (elim (Bool-cases ((i + 4096) % 2 ^ 32 == start)) [
                        | inl back ↦ rw back (
                          valid,
                          inl (
                            refl,
                            refl,
                            refl,
                            inr (λ n lt. all taken n (omega (arith, closes k i r back))),
                          ),
                        )
                        | inr further ↦ rw further (
                            search-first fuel (suc k) ((i + 4096) % 2 ^ 32)
                              (next-Round k i r further) (omega arith) (all taken))
                      ]))
              ])
          where
            all :
                is_mapped m i v.memory ≡ true
                → (n : ℕ) → n < suc k
                → is_mapped m (page_at start n) v.memory ≡ true
            all taken n lt = elim (dec_lt n k) [
              | yes earlier ↦ mapped n earlier
              | no now ↦ let e : page_at start n ≡ i = omega (arith, r.here) in rw e taken
            ]
