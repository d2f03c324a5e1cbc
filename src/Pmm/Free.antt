-- ===== src/Pmm/Free.antt =====
-- `pmm_free_page` against `pmm_alloc_page`: marks, validity, and what calls in a row give.
use dvivon_os.Pmm.Outcome.{alloc_page_lem, Outcome, Taken, Exhausted, is_used}
use dvivon_os.Base.{
  subst, inr, ap, inl, true, ◌==◌, ◌⊎◌, arith, not, ◌≢◌, some, ◌&&◌, ◌/◌, ◌≡◌, ◌≤◌,
}
use dvivon_os.Pmm.Bitmap.{test_bit-clear_bit, clear_bit-Fits}
use dvivon_os.Pmm.{alloc_page, ℕ, Pmm, free_page}
use dvivon_os.Pmm.Alloc.{IsValid}

module _ (s : Pmm) (addr p : ℕ) where
  -- Freeing an address clears the mark of its page and no other.
  pub is_used-free_page : is_used (free_page s addr) p ≡ (is_used s p && not (addr / 4096 == p))
  unfolding free_page
  is_used-free_page = test_bit-clear_bit (addr / 4096) p s.bitmap

-- Freeing keeps the allocator valid, unless it is page 0 that is freed.
pub free_page-IsValid : (s : Pmm) (addr : ℕ) → 4096 ≤ addr → IsValid s → IsValid (free_page s addr)
unfolding free_page
free_page-IsValid s addr h v = record {
  words = clear_bit-Fits (addr / 4096) s.bitmap v.words;
  cursor = v.cursor;
  small = v.small;
  zero_taken = ground (arith, v.zero_taken, test_bit-clear_bit (addr / 4096) 0 s.bitmap);
}

module _ (s : Pmm) (v : IsValid s) where
  -- What `alloc_page_lem` says of a call whose result is known.
  pub alloc_page-Outcome :
      {a : ℕ} {s' : Pmm}
      → alloc_page s ≡ some (a, s')
      → IsValid s' × (Exhausted s a s' ⊎ Taken s a s')
  alloc_page-Outcome e = subst (Outcome s) e (alloc_page_lem s v)

  pub alloc_page-Taken :
      {a : ℕ} {s' : Pmm} → alloc_page s ≡ some (a, s') → a ≢ 0 → IsValid s' × Taken s a s'
  alloc_page-Taken e ne =
      let o = alloc_page-Outcome e in (o.0, elim o.1 [ inl x ↦ absurd (ne x.null) | inr t ↦ t ])

  -- Freeing the page that a valid allocator just handed out gives back the marks of every page.
  pub free_page-alloc_page :
      {a : ℕ} {s' : Pmm}
      → alloc_page s ≡ some (a, s')
      → a ≢ 0
      → (p : ℕ) → is_used (free_page s' a) p ≡ is_used s p
  free_page-alloc_page {a} {s'} e ne p =
      let t = (alloc_page-Taken e ne).1 in
      ground (arith, is_used-free_page s' a p, t.marks p, t.was_free)

-- On a valid allocator two calls of `pmm_alloc_page` in a row that both succeed hand out different
-- pages.
pub alloc_page_distinct :
    (s : Pmm) (v : IsValid s) {a b : ℕ} {s' s'' : Pmm}
    → alloc_page s ≡ some (a, s')
    → a ≢ 0
    → alloc_page s' ≡ some (b, s'')
    → b ≢ 0
    → a / 4096 ≢ b / 4096
alloc_page_distinct s v {a} {s'} e ne e' ne' same =
    let (v', t) = alloc_page-Taken s v e ne in
    let t' = (alloc_page-Taken s' v' e' ne').1 in
    let used : is_used s' (a / 4096) ≡ true = ground (arith, t.marks (a / 4096)) in
    cc (used, t'.was_free, ap (is_used s') same)
