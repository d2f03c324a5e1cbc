-- ===== src/Vmm/Copy.antt =====
-- The copying of the entries of the kernel by `vmm_create_address_space` of src/kernel/memory/vmm.c.
use dvivon_os.Base.{
  refl, ==_of_ne, ◌==◌, if-false, ap, ap₂, ◌∙◌, ◌%◌, some, arith, ◌≢◌, ◌⊎◌, ◌*◌, ◌≤◌, ◌+◌, ◌<◌, ◌≡◌,
  ℕ, zero, suc, inl,
}
use native.Mathlib.Decide.{dec_lt}
use dvivon_os.Vmm.Windows.{walk-through, pd_window_lem}
use dvivon_os.Vmm.Page.{store-InUse}
use dvivon_os.Vmm.{pd_window, pd_scratch_window, copy_entries, Mmu}
use dvivon_os.Vmm.Walk.{walk, IsMmu}
use dvivon_os.Vmm.Mapping.{InUse}

module _ {S : Type 0} (m : Mmu S) (l : IsMmu m) (new : ℕ) where
  pub scratch_word :
      (s : S)
      → InUse m l s 1022 new
      → (j : ℕ) → j < 1024
      → walk (l.physical s) (m.read_cr3 s) (pd_scratch_window + 4 * j) ≡ some (new + 4 * j)
  scratch_word s h j lt =
      let off : (pd_scratch_window + 4 * j) % 4096 ≡ 4 * j = omega arith in
      walk-through (l.physical s) (m.read_cr3 s) h.recursive (pd_scratch_window + 4 * j) 1022
        (omega arith) (omega arith) h.there
      ∙ ap₂ (λ (f k : ℕ). some (f + k)) h.named off

  -- The copying of n entries from entry i on.
  pub record Copied (i n : ℕ) (s s' : S) : Type 0 where
    pub in_use : InUse m l s' 1022 new
    pub cr3 : m.read_cr3 s' ≡ m.read_cr3 s
    pub copied :
        (k : ℕ)
        → i ≤ k
        → k < i + n
        → l.physical s' (new + 4 * k) ≡ l.physical s (m.read_cr3 s + 4 * k)
    pub kept :
        (q : ℕ) → (q < new + 4 * i) ⊎ (new + 4 * (i + n) ≤ q) → l.physical s' q ≡ l.physical s q

  -- An entry of the current directory is no word of the new one.
  apart :
      (s : S) (k j : ℕ)
      → InUse m l s 1022 new
      → k < 1024
      → j < 1024
      → m.read_cr3 s + 4 * k ≢ new + 4 * j
  apart s k j h lt lt' e = absurd (omega (arith, h.aligned, h.recursive.aligned, h.other))

  pub copy_entries-Copied :
      (n i : ℕ) (s : S) → InUse m l s 1022 new → i + n ≤ 1022 → Copied i n s (copy_entries m n i s)
  unfolding copy_entries
  copy_entries-Copied zero i s h le = record {
    in_use = h;
    cr3 = refl;
    copied = λ k lo hi. absurd (omega arith);
    kept = λ q out. refl;
  }
  copy_entries-Copied (suc n) i s h le =
      let pd = m.read_cr3 s in
      let value = m.load (pd_window + 4 * i) s in
      let loaded : value ≡ l.physical s (pd + 4 * i) =
        l.load_walk (pd_window + 4 * i) (pd + 4 * i) s
          (pd_window_lem (l.physical s) pd h.recursive i (omega arith)) in
      let s' = m.store (pd_scratch_window + 4 * i) value s in
      let (h', put) =
        store-InUse m l pd_scratch_window 1022 new scratch_word i value s h (omega arith) in
      let same : m.read_cr3 s' ≡ pd = l.store_cr3 (pd_scratch_window + 4 * i) value s in
      let ih = copy_entries-Copied n (i + 1) s' h' (omega arith) in
      record {
        in_use = ih.in_use;
        cr3 = ih.cr3 ∙ same;
        copied = λ k lo hi. elim (dec_lt i k) [
          | yes later ↦
              ih.copied k (omega arith) (omega arith)
              ∙ ap (λ d. l.physical s' (d + 4 * k)) same
              ∙ put (pd + 4 * k)
              ∙ if-false (pd + 4 * k == new + 4 * i) _ _
                  (==_of_ne (pd + 4 * k) (new + 4 * i) (apart s k i h (omega arith) (omega arith)))
          | no here ↦
              let e : k ≡ i = omega arith in
              rw e (
                ih.kept (new + 4 * i) (inl (omega arith))
                ∙ ground (arith, put (new + 4 * i))
                ∙ loaded)
        ];
        kept = λ q out. ih.kept q (ground (arith, out)) ∙ ground (arith, put q, out);
      }
