-- ===== src/Pmm/Outcome.antt =====
-- What `pmm_alloc_page` promises its callers.
use dvivon_os.Base.{
  refl, ap, ◌∙◌, bit_or, ◌^◌, ==_of_ne, inr, none, ◌-◌, ◌+◌, arith, inl, ◌==◌, ◌⊎◌, some, ◌||◌,
  false, true, ◌*◌, ◌/◌, ◌%◌, ◌<◌, Bool, ◌≡◌, ◌≢◌, Option, ℕ,
}
use dvivon_os.Pmm.Bitmap.{test_bit-or}
use dvivon_os.Base.Bits.{pow_lt, bit_or-lt, bit, bit-ones}
use dvivon_os.Pmm.Alloc.{scan-Post, Post, IsValid}
use dvivon_os.Pmm.{
  scan, update, out_of_fuel, found, Scan, all_bits_set, take_page, full, test_bit, alloc_page, Pmm,
}
use native.Mathlib.Decide.{dec_lt}

-- Whether a page is taken.
abbrev pub is_used : Pmm → ℕ → Bool
is_used s p = test_bit p s.bitmap

-- No page below the end of usable memory is free, and nothing changes.
pub record Exhausted (s : Pmm) (addr : ℕ) (s' : Pmm) : Type 0 where
  pub null : addr ≡ 0
  pub same : s' ≡ s
  pub none_free : (p : ℕ) → p < s.usable_end_words * 32 → is_used s p ≡ true

-- A free page is handed out, and is the only page whose mark changes.
pub record Taken (s : Pmm) (addr : ℕ) (s' : Pmm) : Type 0 where
  pub not_null : addr ≢ 0
  pub aligned : addr % 4096 ≡ 0
  pub in_range : addr / 4096 < s.usable_end_words * 32
  pub was_free : is_used s (addr / 4096) ≡ false
  pub marks : (p : ℕ) → is_used s' p ≡ (is_used s p || (addr / 4096 == p))

abbrev pub Outcome : Pmm → Option (ℕ × Pmm) → Type 0
Outcome s none = ⊥
Outcome s (some (addr, s')) = IsValid s' × (Exhausted s addr s' ⊎ Taken s addr s')

module _ (s : Pmm) (v : IsValid s) where
  none_free :
      Post s s.last_alloc 0 full → (p : ℕ) → p < s.usable_end_words * 32 → is_used s p ≡ true
  none_free all p h = rw word (bit-ones 32 (p % 32) (omega arith))
    where
      word : s.bitmap (p / 32) ≡ all_bits_set
      word = elim (dec_lt (p / 32) s.last_alloc) [
        | yes lt ↦ ground (arith, v.cursor, all (p / 32 + s.usable_end_words - s.last_alloc))
        | no ge ↦ ground (arith, v.cursor, all (p / 32 - s.last_alloc))
      ]

  module _ (w b : ℕ) (lt : w < s.usable_end_words) (small : b < 32)
      (free : bit (s.bitmap w) b ≡ false) where
    abbrev took : Pmm
    took = record s { bitmap = update s.bitmap w (bit_or (s.bitmap w) (2 ^ b)); last_alloc = w }

    abbrev page : ℕ
    page = (w * 32 + b) * 4096 % 2 ^ 32

    page_lem : page ≡ (w * 32 + b) * 4096
    page_lem = omega (arith, v.small)

    word_index : (w * 32 + b) / 32 ≡ w
    word_index = omega arith

    bit_index : (w * 32 + b) % 32 ≡ b
    bit_index = omega arith

    page_ne_zero : w * 32 + b ≢ 0
    page_ne_zero e =
        let e₁ : w ≡ 0 = omega arith in
        let e₂ : b ≡ 0 = omega arith in cc (v.zero_taken, free, e₁, e₂)

    took-IsValid : IsValid took
    took-IsValid = record {
      words = λ i.
          ground
            (arith, v.words i, v.words w, bit_or-lt 32 (s.bitmap w) (2 ^ b), pow_lt b 32 small);
      cursor = lt;
      small = v.small;
      zero_taken = test_bit-or s.bitmap w b 0 small ∙ ap (λ t. t || (w * 32 + b == 0)) v.zero_taken;
    }

    index_lem : page / 4096 ≡ w * 32 + b
    index_lem = omega (arith, page_lem)

    took-Taken : Taken s page took
    took-Taken = record {
      not_null = omega (arith, page_lem, page_ne_zero);
      aligned = omega (arith, page_lem);
      in_range = omega (arith, page_lem);
      was_free = rw (index_lem, word_index, bit_index) free;
      marks = λ p. rw index_lem (test_bit-or s.bitmap w b p small);
    }

  take-Post : (r : Scan) → Post s s.last_alloc 0 r → Outcome s (take_page s r)
  unfolding take_page
  take-Post full all = (v, inl (record { null = refl; same = refl; none_free = none_free all }))
  take-Post out_of_fuel h = absurd h
  take-Post (found w b) (lt, small, free) =
      (took-IsValid w b lt small free, inr (took-Taken w b lt small free))

  -- On a valid allocator `pmm_alloc_page` returns, keeps it valid, and either hands out a page that
  -- was free and not page 0, marking that page and no other, or returns 0, changes nothing, and no
  -- page below the end of usable memory is free.
  pub alloc_page_lem : Outcome s (alloc_page s)
  unfolding alloc_page
  alloc_page_lem =
      let some_words = ==_of_ne s.usable_end_words 0 (omega (arith, v.cursor)) in
      rw some_words (
        take-Post (scan s.usable_end_words s s.last_alloc s.last_alloc) (
          scan-Post s v s.last_alloc v.cursor s.usable_end_words 0 s.last_alloc
            (ground (arith, v.cursor)) (omega arith) (omega (arith, v.cursor))))
