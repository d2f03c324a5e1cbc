-- ===== src/Vmm/Tests.antt =====
-- Address spaces in a small machine: the directory at 0x1000, and a page table for the kernel at 0x2000.
use dvivon_os.Base.{
  false, ◌^◌, ◌/◌, none, ◌*◌, ◌+◌, refl, some, ◌==◌, arith, if◌then◌else◌, ◌≡◌, ◌≢◌, ℕ,
}
use dvivon_os.Vmm.Translate.{virt_to_phys-walk, is_found, found_or_zero}
use dvivon_os.Vmm.Fresh.{map_user_page-fresh}
use dvivon_os.Vmm.{
  is_mapped, is_present, pd_scratch_window, alloc_kernel_page, create_address_space,
  kernel_higher_half, map_kernel_page, pd_window, Vmm, map_user_page, set_pte_at, virt_to_phys,
}
use dvivon_os.Vmm.Space.{create_address_space-NewDirectory, NewDirectory}
use dvivon_os.Pmm.{all_bits_set, Pmm, alloc_page}
use dvivon_os.Vmm.Walk.{walk, IsRecursive}
use dvivon_os.Vmm.Mapping.{InUse, virt_to_phys-map_kernel_page}
use dvivon_os.Vmm.Search.{alloc_kernel_page-Searched, first_page}
use dvivon_os.Vmm.Rounds.{Searched}
use dvivon_os.Base.Buf.{update}
use dvivon_os.Base.Search.{find_from}
use dvivon_os.Vmm.Ram.{machine-IsMmu, Machine, machine}
use dvivon_os.Pmm.Alloc.{IsValid}

abbrev words : ℕ → ℕ
words p = if p == 0x1ffc then 0x1003 else if p == 0x1c00 then 0x2003 else 0

abbrev small : Machine
small = record { cr3 = 0x1000; words = words }

-- One page is left: page 33.
abbrev pages : Pmm
pages = record {
  bitmap = λ w. if w == 0 then all_bits_set else 5;
  usable_end_words = 2;
  last_alloc = 0;
}

pages-IsValid : IsValid pages
pages-IsValid = record {
  words = λ w. ground arith;
  cursor = omega arith;
  small = omega arith;
  zero_taken = refl;
}

abbrev pages_after : Pmm
pages_after = record pages { bitmap = update pages.bitmap 1 7; last_alloc = 1 }

page_33 : alloc_page pages ≡ some (0x21000, pages_after)
unfolding alloc_page find_from
page_33 = refl

abbrev start : Vmm Machine
start = record {
  pmm = pages;
  memory = small;
  head = 0;
  tail = 0;
  count = 0;
  last_free = kernel_higher_half;
}

small-IsRecursive : IsRecursive (machine-IsMmu.physical small) (machine.read_cr3 small)
unfolding machine machine-IsMmu
small-IsRecursive = record { aligned = refl; itself = refl; present = refl }

kernel_table : InUse machine machine-IsMmu small 768 0x2000
unfolding machine machine-IsMmu
kernel_table = record {
  recursive = record { aligned = refl; itself = refl; present = refl };
  named = refl;
  there = refl;
  aligned = refl;
  other = omega arith;
  below = omega arith;
}

virt_to_phys-walk_example :
    (virt_to_phys machine 0xc0000123 small
      ≡ found_or_zero (walk (machine-IsMmu.physical small) (machine.read_cr3 small) 0xc0000123))
    × (is_mapped machine 0xc0000123 small
        ≡ is_found (walk (machine-IsMmu.physical small) (machine.read_cr3 small) 0xc0000123))
virt_to_phys-walk_example =
    virt_to_phys-walk machine machine-IsMmu small small-IsRecursive 0xc0000123 (omega arith)

virt_to_phys-map_kernel_page_example :
    virt_to_phys machine 0xc0000123 (map_kernel_page machine 0xc0000123 0x7000 small) ≡ 0x7123
virt_to_phys-map_kernel_page_example =
    virt_to_phys-map_kernel_page machine machine-IsMmu 0xc0000123 0x7000 0x2000 small (omega arith)
      kernel_table

absent :
    is_present (
      machine-IsMmu.physical start.memory (machine.read_cr3 start.memory + 4 * (0x400123 / 2 ^ 22)))
    ≡ false
unfolding machine machine-IsMmu
absent = refl

not_directory : 0x21000 ≢ machine.read_cr3 small
unfolding machine
not_directory = omega arith

map_user_page-fresh_example :
    (w : Vmm Machine) × (map_user_page machine 0x400123 0x9000 start ≡ some w)
    × (w.pmm ≡ pages_after)
    × (walk (machine-IsMmu.physical w.memory) (machine.read_cr3 w.memory) 0x400123 ≡ some 0x9123)
    × (walk (machine-IsMmu.physical w.memory) (machine.read_cr3 w.memory) 0x402000 ≡ none)
map_user_page-fresh_example =
    map_user_page-fresh machine machine-IsMmu 0x400123 0x9000 0x21000 0x402000 pages_after start
      (omega arith) small-IsRecursive absent pages-IsValid page_33 (omega arith) not_directory refl
      (omega arith)

create_address_space-NewDirectory_example :
    (w : Vmm Machine) × (create_address_space machine start ≡ some (0x21000, w))
    × (w.pmm ≡ pages_after)
    × NewDirectory
        (machine-IsMmu.physical small)
        (machine-IsMmu.physical w.memory)
        (machine.read_cr3 small)
        0x21000
create_address_space-NewDirectory_example =
    create_address_space-NewDirectory machine machine-IsMmu 0x21000 pages_after start
      small-IsRecursive pages-IsValid page_33 (omega arith) not_directory

alloc_kernel_page-Searched_example :
    Searched machine (first_page machine kernel_higher_half) start (alloc_kernel_page machine start)
alloc_kernel_page-Searched_example = alloc_kernel_page-Searched machine start pages-IsValid refl

-- With no page left for a table, `vmm_map_user_page` maps nothing, and reports nothing.
abbrev no_pages : Pmm
no_pages = record pages { usable_end_words = 0 }

unmapped :
    map_user_page machine 0x400123 0x9000 (record start { pmm = no_pages })
    ≡ some (record start { pmm = no_pages })
unfolding map_user_page machine alloc_page
unmapped = refl

-- `vmm_destroy_address_space` means to clear entry 1022 of the directory, and writes to a user
-- address instead.
clears_elsewhere :
    (s : Machine)
    → set_pte_at machine pd_window pd_scratch_window 0 0 s ≡ machine.store 0x3feff8 0 s
unfolding set_pte_at
clears_elsewhere s = refl
