-- ===== src/Pmm/Init.antt =====
-- What `pmm_init` leaves free: the pages of available regions, less the first 256 and the kernel's.
use dvivon_os.Base.{
  lt→ltb, refl, true, ap, ◌∙◌, ◌-◌, inr, inl, ◌%◌, ◌==◌, Bool-cases, zero, arith, not, ◌/◌, leb,
  some, suc, [], ◌∷◌, List, length, ◌≤◌, ◌&&◌, ◌*◌, false, if◌then◌else◌, ltb, ◌+◌, ◌^◌, ◌||◌, Bool,
  ◌<◌, ◌≡◌, ℕ,
}
use dvivon_os.Pmm.{
  max_words, Pmm, finish_init, init, rounds, entry_end, clear_bit, entry_start, entry_type, set_bit,
  entry_size, all_bits_set, test_bit, Bitmap, Buf, fill_words, free_pages, mark_entries,
  reserve_pages,
}
use dvivon_os.Pmm.Bitmap.{test_bit-clear_bit, test_bit-set_bit}
use dvivon_os.Base.Bits.{bit-ones}

-- The bits that one round of each loop touches.
pub test_bit-free_pages :
    (n addr p : ℕ) (m : Bitmap)
    → p < 2 ^ 20
    → test_bit p (free_pages n addr m)
      ≡ (test_bit p m && not (leb (addr / 4096) p && ltb p (addr / 4096 + n)))
unfolding free_pages
test_bit-free_pages zero addr p m h = ground arith
test_bit-free_pages (suc n) addr p m h = elim (Bool-cases (ltb addr (2 ^ 32))) [
  | inl low ↦ rw low (
      ground (
        arith,
        test_bit-free_pages n (addr + 4096) p (clear_bit (addr / 4096) m) h,
        test_bit-clear_bit (addr / 4096) p m,
      ))
  | inr high ↦ rw high (ground (arith, test_bit-free_pages n (addr + 4096) p m h))
]

-- The loop over the kernel's pages ends where its last address does not wrap around.
reserve_pages_lem :
    (n addr end : ℕ) (m : Bitmap)
    → end ≤ 2 ^ 32 - 4096
    → rounds addr end ≡ n
    → (m' : Bitmap) × (reserve_pages (suc n) end addr m ≡ some m')
      × ((p : ℕ)
          → test_bit p m' ≡ (test_bit p m || (leb (addr / 4096) p && ltb p (addr / 4096 + n))))
unfolding reserve_pages
reserve_pages_lem zero addr end m low e =
    let done : ltb addr end ≡ false = ground arith in (m, rw done refl, λ p. ground arith)
reserve_pages_lem (suc n) addr end m low e =
    let more : ltb addr end ≡ true = ground arith in
    let wrap : (addr + 4096) % 2 ^ 32 ≡ addr + 4096 = ground arith in
    let less : rounds (addr + 4096) end ≡ n = ground arith in
    let (m', run, marks) =
      reserve_pages_lem n (addr + 4096) end (set_bit (addr / 4096) m) low less in
    (m', rw (more, wrap) run, λ p. ground (arith, marks p, test_bit-set_bit (addr / 4096) p m))

fill_words_lem : (n w : ℕ) (m : Bitmap) → fill_words n m w ≡ (if ltb w n then all_bits_set else m w)
unfolding fill_words
fill_words_lem zero w m = ground arith
fill_words_lem (suc n) w m = ground (arith, fill_words_lem n w m)

pub test_bit-fill_words :
    (n p : ℕ) (m : Bitmap) → test_bit p (fill_words n m) ≡ (ltb p (n * 32) || test_bit p m)
test_bit-fill_words n p m = ground (arith, fill_words_lem n (p / 32) m, bit-ones 32 (p % 32))

-- The entries of a memory map from `e` on to its end, each followed by the next one and the last one by
-- the end.
abbrev pub IsMap : (mem : Buf) → (end e : ℕ) → List ℕ → Type 0
IsMap mem end e [] = e ≡ end
IsMap mem end e (x ∷ xs) = (x ≡ e) × (e < end) × IsMap mem end (e + entry_size mem e + 4) xs

IsMap-le : (mem : Buf) (end e : ℕ) (xs : List ℕ) → IsMap mem end e xs → e ≤ end
IsMap-le mem end e [] h = omega arith
IsMap-le mem end e (x ∷ xs) (_, lt, h) = omega arith

-- Whether one of the entries is available memory and holds page p.
unfoldable pub is_available : (mem : Buf) → List ℕ → (p : ℕ) → Bool
is_available mem [] p = false
is_available mem (x ∷ xs) p =
    ((entry_type mem x == 1)
      && (leb (entry_start mem x / 4096) p && ltb p (entry_end mem x / 4096)))
    || is_available mem xs p

-- A region of whole pages, marked free if it is usable.
mark_region :
    (usable : Bool) (first last p : ℕ) (m : Bitmap)
    → p < 2 ^ 20
    → first % 4096 ≡ 0
    → last % 4096 ≡ 0
    → test_bit p (if usable then free_pages (rounds first last) first m else m)
      ≡ (test_bit p m && not (usable && (leb (first / 4096) p && ltb p (last / 4096))))
mark_region false first last p m h a b = ground arith
mark_region true first last p m h a b =
    ground (arith, test_bit-free_pages (rounds first last) first p m h)

and_not_or : (a b c : Bool) → ((a && not b) && not c) ≡ (a && not (b || c))
and_not_or true true c = refl
and_not_or true false c = refl
and_not_or false b c = refl

-- The loop over the memory map ends behind its last entry, and clears the marks of available pages
-- alone.
mark_entries_lem :
    (xs : List ℕ) (fuel : ℕ) (mem : Buf) (stop off : ℕ) (m : Bitmap) (end : ℕ)
    → length xs < fuel
    → stop < 2 ^ 32
    → IsMap mem stop off xs
    → (r : Bitmap × ℕ) × (mark_entries fuel mem stop off m end ≡ some r)
      × ((p : ℕ) → p < 2 ^ 20 → test_bit p r.0 ≡ (test_bit p m && not (is_available mem xs p)))
unfolding mark_entries is_available
mark_entries_lem xs zero mem stop off m end pos small h = absurd (omega arith)
mark_entries_lem [] (suc fuel) mem stop off m end pos small h =
    let done : ltb off stop ≡ false = ground arith in ((m, end), rw done refl, λ p lt. ground arith)
mark_entries_lem (x ∷ xs) (suc fuel) mem stop off m end pos small (e, below, h) =
    let usable = entry_type mem off == 1 in
    let first = entry_start mem off in
    let last = entry_end mem off in
    let next = off + entry_size mem off + 4 in
    let within = IsMap-le mem stop next xs h in
    let wrap : next % 2 ^ 32 ≡ next = omega arith in
    let more : ltb off stop ≡ true = ground arith in
    let (r, run, marks) =
      mark_entries_lem xs fuel mem stop next
        (if usable then free_pages (rounds first last) first m else m)
        (if usable && ltb end last then last else end) (omega arith) small h in
    (
      r,
      rw (more, wrap) run,
      λ p lt.
          marks p lt
          ∙ ap (λ t. t && not (is_available mem xs p))
              (mark_region usable first last p m lt (omega arith) (omega arith))
          ∙ rw e (and_not_or (test_bit p m) _ _),
    )

or_regroup : (a n x : Bool) → ((a || n) || x) ≡ (n || (a || x))
or_regroup true true x = refl
or_regroup true false x = refl
or_regroup false n x = refl

-- At the start every page below 4 GiB is marked.
all_taken :
    (s : Pmm) (p : ℕ)
    → p < 2 ^ 20
    → (b : Bool) → (test_bit p (fill_words max_words s.bitmap) && b) ≡ b
all_taken s p small b = rw (test_bit-fill_words max_words p s.bitmap, lt→ltb p (2 ^ 20) small)

-- The pages that `pmm_init` takes back: the first 256, and those of the kernel's image as the code
-- computes its range.
abbrev pub is_reserved : (kernel_start kernel_end p : ℕ) → Bool
is_reserved kernel_start kernel_end p =
    let last = (kernel_end + 2 ^ 32 - 0xc0000000) % 2 ^ 32 in
    ltb p 256
    || (leb (kernel_start / 4096) p && ltb p (kernel_start / 4096 + rounds kernel_start last))

-- `pmm_init` returns on a memory map whose entries follow one another up to its end, with fuel for the
-- entries, where the kernel ends in the upper GiB, below its last page; and a page below 4 GiB is free
-- afterwards exactly when some entry of the map makes it available and it is not reserved.
pub init-marks :
    (fuel kernel_start kernel_end : ℕ) (s : Pmm) (mem : Buf) (mmap size : ℕ) (entries : List ℕ)
    → IsMap mem ((mmap + size) % 2 ^ 32) mmap entries
    → length entries < fuel
    → 0xc0000000 ≤ kernel_end
    → kernel_end ≤ 2 ^ 32 - 4096
    → (s' : Pmm) × (init fuel kernel_start kernel_end s mem mmap size ≡ some s')
      × ((p : ℕ)
          → p < 2 ^ 20
          → test_bit p s'.bitmap
            ≡ (not (is_available mem entries p) || is_reserved kernel_start kernel_end p))
unfolding init finish_init
init-marks fuel kernel_start kernel_end s mem mmap size entries map enough upper low =
    let (r, e, marks) =
      mark_entries_lem entries fuel mem ((mmap + size) % 2 ^ 32) mmap
        (fill_words max_words s.bitmap) 0 enough (omega arith) map in
    let last = (kernel_end + 2 ^ 32 - 0xc0000000) % 2 ^ 32 in
    let x = rounds kernel_start last in
    let (m', run, reserved) =
      reserve_pages_lem x kernel_start last (fill_words 8 r.0) (omega arith) refl in
    (
      record s {
        bitmap = m';
        usable_end_words = ((r.1 + 4095) / 4096 % 2 ^ 32 + 31) % 2 ^ 32 / 32;
      },
      rw (e, init) (rw (run, finish_init) refl),
      λ p small.
          reserved p
          ∙ ap (λ t. t || (leb (kernel_start / 4096) p && ltb p (kernel_start / 4096 + x)))
              (test_bit-fill_words 8 p r.0
                ∙ ap (λ t. ltb p 256 || t) (marks p small ∙ all_taken s p small _))
          ∙ or_regroup (ltb p 256) _ _,
    )
