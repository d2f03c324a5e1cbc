-- ===== src/Pmm.antt =====
-- src/kernel/memory/pmm.c: the physical page allocator, one bit for each page of 4 KiB.
pub mod Bitmap
pub mod Alloc
pub mod Outcome
pub mod Free
pub mod Init
mod Tests
use dvivon_os.Base.{
  ℕ, zero, suc, ◌+◌, ◌-◌, ◌*◌, ◌/◌, ◌%◌, ◌^◌, Bool, true, false, ◌&&◌, not, Option, none, some,
  bit_and, bit_or, ltb, leb, ◌==◌, if◌then◌else◌,
}
use dvivon_os.Base.Bits.{bit}
use dvivon_os.Base.Buf.{Buf, update, get32}
use dvivon_os.Base.Search.{find_from}

abbrev pub page_size : ℕ
page_size = 4096

abbrev pub entry_bits : ℕ
entry_bits = 32

-- `BITMAP_ALL_BITS_SET`
abbrev pub all_bits_set : ℕ
all_bits_set = 2 ^ 32 - 1

-- `MAX_PAGES / BITMAP_ENTRY_BITS`
abbrev pub max_words : ℕ
max_words = 32768

abbrev pub Bitmap : Type 0
Bitmap = ℕ → ℕ

-- The file's variables: `_pmm_bitmap_start`, `usable_end_words` and `last_alloc`.
pub record Pmm : Type 0 where
  pub bitmap : Bitmap
  pub usable_end_words : ℕ
  pub last_alloc : ℕ

pub clear_bit : ℕ → Bitmap → Bitmap
clear_bit n m =
    let w = n / entry_bits in update m w (bit_and (m w) (2 ^ 32 - 1 - 2 ^ (n % entry_bits)))

pub set_bit : ℕ → Bitmap → Bitmap
set_bit n m = let w = n / entry_bits in update m w (bit_or (m w) (2 ^ (n % entry_bits)))

-- `test_bit`, which the file defines and does not call.
abbrev pub test_bit : ℕ → Bitmap → Bool
test_bit n m = bit (m (n / entry_bits)) (n % entry_bits)

-- `__builtin_ffs(~word) - 1` where it is not negative: the lowest bit of `word` that is zero.
pub first_zero : ℕ → Option ℕ
first_zero word = find_from (λ k. not (bit word k)) 0 entry_bits

-- How the `do … while (i != start)` of `pmm_alloc_page` ends.
pub data Scan : Type 0 where
  found : (word bit : ℕ) → Scan
  full : Scan
  out_of_fuel : Scan

-- `i++; if (i >= usable_end_words) i = 0;`
abbrev pub next_word : ℕ → ℕ → ℕ
next_word end i = let j = (i + 1) % 2 ^ 32 in if leb end j then 0 else j

pub scan : (fuel : ℕ) → Pmm → (start i : ℕ) → Scan
unfolding first_zero
scan zero s start i = out_of_fuel
scan (suc fuel) s start i =
    let j = next_word s.usable_end_words i in
    let rest = if j == start then full else scan fuel s start j in
    if s.bitmap i == all_bits_set
    then rest
    else elim (first_zero (s.bitmap i)) [ some b ↦ found i b | none ↦ rest ]

take_page : Pmm → Scan → Option (ℕ × Pmm)
take_page s (found i b) = some (
  (i * entry_bits + b) * page_size % 2 ^ 32,
  record s { bitmap = update s.bitmap i (bit_or (s.bitmap i) (2 ^ b)); last_alloc = i },
)
take_page s full = some (0, s)
take_page s out_of_fuel = none

-- `pmm_alloc_page`; `none` means that the model's fuel ran out, which `Alloc` rules out.
unfoldable pub alloc_page : Pmm → Option (ℕ × Pmm)
unfolding take_page scan
alloc_page s =
    if s.usable_end_words == 0
    then some (0, s)
    else take_page s (scan s.usable_end_words s s.last_alloc s.last_alloc)

-- `pmm_free_page`
pub free_page : Pmm → ℕ → Pmm
unfolding clear_bit
free_page s addr = record s { bitmap = clear_bit (addr / page_size) s.bitmap }

-- The marks of `pmm_init`. `n` counts the rounds of `for (addr = start; addr < end; …)`.
pub free_pages : (n addr : ℕ) → Bitmap → Bitmap
unfolding clear_bit
free_pages zero addr m = m
free_pages (suc n) addr m =
    free_pages n (addr + page_size)
      (if ltb addr (2 ^ 32) then clear_bit (addr / page_size) m else m)

-- `for (addr = kernel_start_phys; addr < kernel_end_phys; addr += PAGE_SIZE)` with an address of 32 bits;
-- `none` if the fuel runs out.
pub reserve_pages : (fuel end addr : ℕ) → Bitmap → Option Bitmap
unfolding set_bit
reserve_pages zero end addr m = none
reserve_pages (suc fuel) end addr m =
    let rest =
      reserve_pages fuel end ((addr + page_size) % 2 ^ 32) (set_bit (addr / page_size) m) in
    if ltb addr end then rest else some m

-- `bitmap[i] = BITMAP_ALL_BITS_SET` for every i below n.
pub fill_words : (n : ℕ) → Bitmap → Bitmap
fill_words zero m = m
fill_words (suc n) m = update (fill_words n m) n all_bits_set

-- How often `for (a = start; a < end; a += PAGE_SIZE)` runs.
abbrev pub rounds : ℕ → ℕ → ℕ
rounds start end = (end - start + (page_size - 1)) / page_size

-- A `multiboot_mmap_entry_t` is packed: size, address, length and type at 0, 4, 12 and 20.
abbrev get64 : Buf → ℕ → ℕ
get64 b i = get32 b i + 2 ^ 32 * get32 b (i + 4)

abbrev pub entry_size : Buf → ℕ → ℕ
entry_size b e = get32 b e

abbrev pub entry_type : Buf → ℕ → ℕ
entry_type b e = get32 b (e + 20)

-- `(addr + PAGE_SIZE - 1) & ~(PAGE_SIZE - 1)` and `(addr + len) & ~(PAGE_SIZE - 1)` in 64 bits: the
-- mask clears the 12 low bits.
abbrev pub entry_start : Buf → ℕ → ℕ
entry_start b e = (get64 b (e + 4) + (page_size - 1)) % 2 ^ 64 / page_size * page_size

abbrev pub entry_end : Buf → ℕ → ℕ
entry_end b e = (get64 b (e + 4) + get64 b (e + 12)) % 2 ^ 64 / page_size * page_size

-- `while (entry < mmap_end)`, over the memory by bytes: the bitmap and `usable_end`; `none` if the fuel
-- runs out. The pointer to the next entry has 32 bits.
pub mark_entries :
    (fuel : ℕ) → (mem : Buf) → (mmap_end entry : ℕ) → Bitmap → ℕ → Option (Bitmap × ℕ)
unfolding free_pages
mark_entries zero mem mmap_end entry m end = none
mark_entries (suc fuel) mem mmap_end entry m end =
    let usable = entry_type mem entry == 1 in
    let first = entry_start mem entry in
    let last = entry_end mem entry in
    let m' = if usable then free_pages (rounds first last) first m else m in
    let end' = if usable && ltb end last then last else end in
    let rest =
      mark_entries fuel mem mmap_end ((entry + entry_size mem entry + 4) % 2 ^ 32) m' end' in
    if ltb entry mmap_end then rest else some (m, end)

-- What `pmm_init` does behind its loop. `kernel_start` and `kernel_end` are the linker's symbols.
finish_init : (kernel_start kernel_end : ℕ) → Pmm → Bitmap × ℕ → Option Pmm
unfolding reserve_pages fill_words
finish_init kernel_start kernel_end s (m, usable_end) =
    let last = (kernel_end + 2 ^ 32 - 0xc0000000) % 2 ^ 32 in
    let pages = (usable_end + (page_size - 1)) / page_size % 2 ^ 32 in
    elim (reserve_pages (suc (rounds kernel_start last)) last kernel_start (fill_words 8 m)) [
      | none ↦ none
      | some m' ↦
          some (record s { bitmap = m'; usable_end_words = (pages + 31) % 2 ^ 32 / entry_bits })
    ]

-- `pmm_init(mmap, length)`, with fuel for the entries of the map.
pub init : (fuel kernel_start kernel_end : ℕ) → Pmm → (mem : Buf) → (mmap length : ℕ) → Option Pmm
unfolding mark_entries finish_init
init fuel kernel_start kernel_end s mem mmap length =
    elim (mark_entries fuel mem ((mmap + length) % 2 ^ 32) mmap (fill_words max_words s.bitmap) 0) [
      | some r ↦ finish_init kernel_start kernel_end s r
      | none ↦ none
    ]
