-- ===== src/Pmm/Alloc.antt =====
-- What `pmm_alloc_page` finds, and that its circular search visits every word.
use dvivon_os.Base.{
  ℕ, zero, suc, ◌+◌, ◌-◌, ◌^◌, ◌≤◌, ◌<◌, ◌≡◌, inl, inr, true, false, not, none, some, arith, ltb,
  ◌==◌, if◌then◌else◌, Bool-cases, Option-cases,
}
use dvivon_os.Base.Bits.{bit, all_set}
use dvivon_os.Pmm.{
  Pmm, Scan, found, full, out_of_fuel, all_bits_set, test_bit, first_zero, next_word, scan,
}
use dvivon_os.Pmm.Bitmap.{Fits}
use native.Mathlib.Decide.{dec_lt}
use dvivon_os.Base.Search.{find_from-some, find_from-none}

-- The allocator between two calls: words fit, the cursor is in range, and page 0 is taken.
pub record IsValid (s : Pmm) : Type 0 where
  pub words : Fits s.bitmap
  pub cursor : s.last_alloc < s.usable_end_words
  pub small : s.usable_end_words ≤ 2 ^ 15
  pub zero_taken : test_bit 0 s.bitmap ≡ true

pub first_zero-some : (w : ℕ) {k : ℕ} → first_zero w ≡ some k → (k < 32) × (bit w k ≡ false)
unfolding first_zero
first_zero-some w {k} h =
    let r = find_from-some (λ k. not (bit w k)) 0 32 h in (omega (arith, r.1), ground (arith, r.2))

pub first_zero-none : (w : ℕ) → w < 2 ^ 32 → first_zero w ≡ none → w ≡ all_bits_set
unfolding first_zero
first_zero-none w lt h =
    all_set 32 w lt λ k hk.
      ground (arith, find_from-none (λ k. not (bit w k)) 0 32 h k (omega arith) (omega arith))

module _ (s : Pmm) where
  -- The word that the search visits after k rounds from `start`.
  abbrev pub at : ℕ → ℕ → ℕ
  at start k =
      if ltb (start + k) s.usable_end_words then start + k else start + k - s.usable_end_words

  -- What each way to end says of a search that has passed the first k words.
  abbrev pub Post : ℕ → ℕ → Scan → Type 0
  Post start k (found w b) = (w < s.usable_end_words) × (b < 32) × (bit (s.bitmap w) b ≡ false)
  Post start k full =
      (j : ℕ) → k ≤ j → j < s.usable_end_words → s.bitmap (at start j) ≡ all_bits_set
  Post start k out_of_fuel = ⊥

  Post-suc :
      (start k : ℕ) (r : Scan)
      → s.bitmap (at start k) ≡ all_bits_set
      → Post start (suc k) r
      → Post start k r
  Post-suc start k (found w b) e h = h
  Post-suc start k full e h = λ j lo hi. elim (dec_lt k j) [
    | yes lt ↦ h j lt hi
    | no ge ↦ let same : j ≡ k = omega arith in rw same e
  ]
  Post-suc start k out_of_fuel e h = h

  module _ (v : IsValid s) (start : ℕ) (lt : start < s.usable_end_words) where
    next-at :
        (k : ℕ)
        → k < s.usable_end_words
        → next_word s.usable_end_words (at start k)
          ≡ (if suc k == s.usable_end_words then start else at start (suc k))
    next-at k below = ground (arith, lt, v.small)

    module _ (k i : ℕ) (e : i ≡ at start k) (below : k < s.usable_end_words) where
      came_round : (next_word s.usable_end_words i == start) ≡ true → suc k ≡ s.usable_end_words
      came_round back = ground (arith, next-at k below, lt)

      goes_on :
          (next_word s.usable_end_words i == start) ≡ false
          → (next_word s.usable_end_words i ≡ at start (suc k)) × (suc k < s.usable_end_words)
      goes_on on = ground (arith, next-at k below, lt)

      -- One round, given what the rest of the search says.
      module _ (fuel : ℕ)
          (ih : (next_word s.usable_end_words i ≡ at start (suc k))
            → suc k < s.usable_end_words
            → Post start (suc k) (scan fuel s start (next_word s.usable_end_words i))) where
        leave :
            s.bitmap i ≡ all_bits_set
            → Post start k (
                if next_word s.usable_end_words i == start
                then full
                else scan fuel s start (next_word s.usable_end_words i))
        leave taken = elim (Bool-cases (next_word s.usable_end_words i == start)) [
          | inl back ↦ rw back (
              Post-suc start k full (rw e at taken)
                (λ m lo hi. absurd (omega (arith, came_round back))))
          | inr on ↦ rw on (
              Post-suc start k (scan fuel s start (next_word s.usable_end_words i)) (rw e at taken)
                (ih (goes_on on).0 (goes_on on).1))
        ]

        round : Post start k (scan (suc fuel) s start i)
        unfolding scan
        round = elim (Bool-cases (s.bitmap i == all_bits_set)) [
          | inl taken ↦ rw taken (leave (ground arith))
          | inr free ↦ elim (Option-cases (first_zero (s.bitmap i))) [
            | inl nowhere ↦
                rw (free, nowhere) (leave (first_zero-none (s.bitmap i) (v.words i) nowhere))
            | inr (b, hit) ↦
                rw (free, hit)
                  (let at_i : i < s.usable_end_words = rw e (ground (arith, lt)) in
                    let low = first_zero-some (s.bitmap i) hit in (at_i, low.0, low.1))
          ]
        ]

    pub scan-Post :
        (fuel k i : ℕ)
        → i ≡ at start k
        → k + fuel ≡ s.usable_end_words
        → k < s.usable_end_words
        → Post start k (scan fuel s start i)
    scan-Post zero k i e sum below = absurd (omega arith)
    scan-Post (suc fuel) k i e sum below =
        round k i e below fuel (λ same lt'.
          scan-Post fuel (suc k) (next_word s.usable_end_words i) same (omega arith) lt')
