-- ===== src/Pmm/Tests.antt =====
-- The page allocator at concrete states.
use dvivon_os.Base.{
  false, true, ◌||◌, not, ◌^◌, [], some, refl, ◌==◌, ◌∷◌, ◌≡◌, arith, get_or, if◌then◌else◌, ℕ, ◌*◌,
  ◌+◌, ◌-◌, ◌%◌, ◌<◌, List, none,
}
use dvivon_os.Pmm.Init.{init-marks, is_reserved, is_available, IsMap}
use dvivon_os.Pmm.{test_bit, all_bits_set, init, mark_entries, Pmm, alloc_page}
use dvivon_os.Pmm.Outcome.{alloc_page_lem, Outcome}
use dvivon_os.Base.Buf.{get32, update, Buf}
use dvivon_os.Pmm.Alloc.{IsValid}
use mathlib.Core.Option
use dvivon_os.Base.Search.{find_from}

abbrev two_words : Pmm
two_words = record {
  bitmap = λ w. if w == 0 then all_bits_set else 5;
  usable_end_words = 2;
  last_alloc = 0;
}

abbrev one_more : Pmm
one_more = record {
  bitmap = λ w. if w == 1 then 7 else (if w == 0 then all_bits_set else 5);
  usable_end_words = 2;
  last_alloc = 1;
}

two_words-IsValid : IsValid two_words
two_words-IsValid = record {
  words = λ w. ground arith;
  cursor = omega arith;
  small = omega arith;
  zero_taken = refl;
}

-- Page 33 is the first that is free: bit 1 of word 1.
alloc_page_runs :
    alloc_page two_words
    ≡ some (33 * 4096, (record two_words { bitmap = update two_words.bitmap 1 7; last_alloc = 1 }))
unfolding alloc_page find_from
alloc_page_runs = refl

alloc_page_runs_again : Option.map (λ r. r.0) (alloc_page one_more) ≡ some (35 * 4096)
unfolding alloc_page find_from
alloc_page_runs_again = refl

alloc_page_example : Outcome two_words (alloc_page two_words)
alloc_page_example = alloc_page_lem two_words two_words-IsValid

abbrev after : Pmm
after = record two_words { bitmap = update two_words.bitmap 1 7; last_alloc = 1 }

abbrev after_two : Pmm
after_two = record after { bitmap = update after.bitmap 1 15; last_alloc = 1 }

alloc_page-after : alloc_page after ≡ some (35 * 4096, after_two)
unfolding alloc_page find_from
alloc_page-after = refl

-- One entry of a memory map at 0x100: 16 MiB of available memory from address 0.
abbrev mem : Buf
mem i =
    get_or (20 ∷ 0 ∷ 0 ∷ 0 ∷ 0 ∷ 0 ∷ 0 ∷ 0 ∷ 0 ∷ 0 ∷ 0 ∷ 0 ∷ 0 ∷ 0 ∷ 0 ∷ 1 ∷ 0 ∷ 0 ∷ 0 ∷ 0 ∷ 1 ∷ [])
      (i - 0x100) 0

abbrev entries : List ℕ
entries = 0x100 ∷ []

mem-IsMap : IsMap mem ((0x100 + 24) % 2 ^ 32) 0x100 entries
unfolding get32
mem-IsMap = (refl, omega arith, refl)

init-marks_example :
    (s' : Pmm) × (init 2 0x100000 0xc0200000 two_words mem 0x100 24 ≡ some s')
    × ((p : ℕ)
        → p < 2 ^ 20
        → test_bit p s'.bitmap
          ≡ (not (is_available mem entries p) || is_reserved 0x100000 0xc0200000 p))
init-marks_example =
    init-marks 2 0x100000 0xc0200000 two_words mem 0x100 24 entries mem-IsMap (omega arith)
      (omega arith) (omega arith)

-- Page 300 is available, page 200 and page 0x1ff are reserved.
available_pages :
    (is_available mem entries 300 ≡ true)
    × (is_reserved 0x100000 0xc0200000 300 ≡ true)
    × (is_reserved 0x100000 0xc0200000 600 ≡ false)
unfolding is_available get32
available_pages = (refl, refl, refl)

-- An entry whose size wraps the pointer around to the entry itself: the loop does not end.
abbrev endless : Buf
endless i = get_or (0xfc ∷ 0xff ∷ 0xff ∷ 0xff ∷ []) (i - 0x100) 0

endless_map : (m : ℕ → ℕ) → mark_entries 9 endless 0x118 0x100 m 0 ≡ none
unfolding mark_entries get32
endless_map m = refl
