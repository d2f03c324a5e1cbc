-- ===== src/KernelHeap/Tests.antt =====
-- A free block of 64 bytes at 0xC1000000, and the head of the free list at 0xC1000800.
use dvivon_os.KernelHeap.Split.{Fits, split_block-IsBlock, Splits}
use dvivon_os.Base.{refl, ◌||◌, ◌==◌, arith, if◌then◌else◌, ◌≡◌, Option, ℕ, none, some, inr}
use dvivon_os.KernelHeap.{
  find_block, coalesce_with_prev, update_footer, add_free_block, create_free_block,
  allocate_new_heap_page, ensure_page, split_block, KernelHeap, kmalloc,
}

abbrev one_block : KernelHeap (Unit {0})
one_block = record {
  words = λ a. if (a == 0xc1000000) || (a == 0xc100003c) then 65 else 0;
  free_list_head = 0xc1000800;
  heap_max = 0xc1001000;
  vmm = tt;
}

block_Fits : Fits 0xc1000000 16 one_block
block_Fits = record {
  even = refl;
  enough = omega arith;
  room = omega arith;
  apart = inr (inr (omega arith));
}

split_block-IsBlock_example :
    Splits 0xc1000000 16 one_block block_Fits
      (split_block 0xc1000000 16 one_block).0
      (split_block 0xc1000000 16 one_block).1
split_block-IsBlock_example = split_block-IsBlock 0xc1000000 16 one_block block_Fits

-- A heap without pages, whose pages are always there and hold zeros.
abbrev no_pages : KernelHeap (Unit {0})
no_pages = record { words = λ a. 0; free_list_head = 0; heap_max = 0xc1000000; vmm = tt }

abbrev any_page : ℕ → (ℕ → ℕ) → Unit {0} → ℕ × (ℕ → ℕ) × Unit {0}
any_page addr words v = (addr, words, v)

abbrev pointer : Option (ℕ × KernelHeap (Unit {0})) → ℕ
pointer none = 0
pointer (some (p, h)) = p

-- The first request gets the first bytes behind a header.
first_pointer : pointer (kmalloc any_page 1 2 20 no_pages) ≡ 0xc1000004
unfolding kmalloc ensure_page allocate_new_heap_page create_free_block add_free_block update_footer
    coalesce_with_prev find_block
first_pointer = refl
