-- ===== src/Vmm/Page.antt =====
-- Writing a page through a window of src/kernel/memory/vmm.c, word by word.
use dvivon_os.Vmm.{is_present, frame, clear_words, Mmu}
use dvivon_os.Base.{
  refl, zero, ap, sym, ◌∙◌, inr, subst, suc, arith, ◌==◌, if◌then◌else◌, inl, some, ◌≡◌, ◌*◌, ◌≤◌,
  ◌+◌, ◌⊎◌, ◌<◌, ℕ,
}
use native.Mathlib.Decide.{dec_lt}
use dvivon_os.Vmm.Walk.{walk, IsMmu}
use dvivon_os.Vmm.Mapping.{HasTable, InUse}

module _ {S : Type 0} (m : Mmu S) (l : IsMmu m) where
  -- A word outside the table of entry i leaves what the table needs.
  pub HasTable-keep :
      (mem mem' : ℕ → ℕ) (pd i table : ℕ)
      → HasTable mem pd i table
      → ((q : ℕ) → (q < table) ⊎ (table + 4096 ≤ q) → mem' q ≡ mem q)
      → HasTable mem' pd i table
  HasTable-keep mem mem' pd i table h k =
      let last : mem' (pd + 4092) ≡ mem (pd + 4092) = k (pd + 4092) (outside 1023 (omega arith)) in
      let mine : mem' (pd + 4 * i) ≡ mem (pd + 4 * i) =
        k (pd + 4 * i) (outside i (omega (arith, h.below))) in
      record {
        recursive = record {
          aligned = h.recursive.aligned;
          itself = ap frame last ∙ h.recursive.itself;
          present = ap is_present last ∙ h.recursive.present;
        };
        named = ap frame mine ∙ h.named;
        there = ap is_present mine ∙ h.there;
        aligned = h.aligned;
        other = h.other;
        below = h.below;
      }
    where
      outside : (k : ℕ) → k < 1024 → (pd + 4 * k < table) ⊎ (table + 4096 ≤ pd + 4 * k)
      outside k lt = elim (dec_lt pd table) [
        | yes before ↦ inl (omega (arith, h.aligned, h.recursive.aligned))
        | no behind ↦ inr (omega (arith, h.aligned, h.recursive.aligned, h.other))
      ]

  -- The memset of n words of the page from word j on.
  pub record Cleared (i table j n : ℕ) (s s' : S) : Type 0 where
    pub in_use : InUse m l s' i table
    pub cr3 : m.read_cr3 s' ≡ m.read_cr3 s
    pub zeroed : (k : ℕ) → j ≤ k → k < j + n → l.physical s' (table + 4 * k) ≡ 0
    pub kept : (q : ℕ) → (q < table + 4 * j) ⊎ (table + 4096 ≤ q) → l.physical s' q ≡ l.physical s q

  -- A window at `base` that shows the page `table` of entry i as long as the entry names it.
  module _ (base i table : ℕ)
      (window : (s : S)
        → InUse m l s i table
        → (j : ℕ) → j < 1024
        → walk (l.physical s) (m.read_cr3 s) (base + 4 * j) ≡ some (table + 4 * j)) where
    pub store-InUse :
        (j v : ℕ) (s : S)
        → InUse m l s i table
        → j < 1024
        → InUse m l (m.store (base + 4 * j) v s) i table
          × ((q : ℕ)
              → l.physical (m.store (base + 4 * j) v s) q
                ≡ (if q == table + 4 * j then v else l.physical s q))
    store-InUse j v s h lt =
        let put = λ (q : ℕ). l.store_walk (base + 4 * j) v (table + 4 * j) q s (window s h j lt) in
        (
          subst (λ pd. HasTable (l.physical (m.store (base + 4 * j) v s)) pd i table)
              (sym (l.store_cr3 (base + 4 * j) v s))
              (HasTable-keep (l.physical s) (l.physical (m.store (base + 4 * j) v s)) (m.read_cr3 s)
                i table h (λ q out. ground (arith, put q, out))),
          put,
        )

    pub clear_words-Cleared :
        (n j : ℕ) (s : S)
        → InUse m l s i table
        → j + n ≤ 1024
        → Cleared i table j n s (clear_words m n (base + 4 * j) s)
    unfolding clear_words
    clear_words-Cleared zero j s h le = record {
      in_use = h;
      cr3 = refl;
      zeroed = λ k lo hi. absurd (omega arith);
      kept = λ q out. refl;
    }
    clear_words-Cleared (suc n) j s h le =
        let p = base + 4 * j in
        let (h', put) = store-InUse j 0 s h (omega arith) in
        let next : p + 4 ≡ base + 4 * (j + 1) = omega arith in
        let ih = clear_words-Cleared n (j + 1) (m.store p 0 s) h' (omega arith) in
        rw next (record {
          in_use = ih.in_use;
          cr3 = ih.cr3 ∙ l.store_cr3 p 0 s;
          zeroed = λ k lo hi. elim (dec_lt j k) [
            | yes later ↦ ih.zeroed k (omega arith) (omega arith)
            | no here ↦
                let e : k ≡ j = omega arith in
                rw e (
                  ih.kept (table + 4 * j) (inl (omega arith)) ∙ ground (arith, put (table + 4 * j)))
          ];
          kept = λ q out. ih.kept q (ground (arith, out)) ∙ ground (arith, put q, out);
        })
