-- ===== src/KernelHeap.antt =====
-- src/kernel/memory/heap-allocator.c: blocks with a header and a footer word, and the list of free blocks.
-- The memory is read by the aligned 32-bit words at their addresses. A `block_header_t` is one word; a
-- `free_block_header_t` is three: the header, `next_free` and `prev_free`.
pub mod Split
mod Tests
use dvivon_os.Base.{
  true, ◌||◌, leb, ltb, not, ◌*◌, ◌==◌, ◌^◌, Bool, Option, bit_or, if◌then◌else◌, ◌%◌, ◌+◌, ◌-◌,
  ◌/◌, ℕ, none, some, zero, suc,
}
use dvivon_os.Base.Buf.{update}

abbrev pub block_free : ℕ
block_free = 1

abbrev pub kheap_start : ℕ
kheap_start = 0xc1000000

-- `(uintptr_t)MEMORY_SPACE`: 2^32 in a pointer of 32 bits.
abbrev pub memory_space : ℕ
memory_space = 0x100000000 % 2 ^ 32

abbrev pub page_size : ℕ
page_size = 4096

-- `sizeof(block_header_t)` and `sizeof(free_block_header_t)`
abbrev pub header_bytes : ℕ
header_bytes = 4

abbrev pub free_header_bytes : ℕ
free_header_bytes = 12

-- `ALIGN_UP`
abbrev pub align_up : ℕ → ℕ
align_up x = (x + 3) % 2 ^ 32 / 4 * 4

-- The memory and the static variables, with the state of the virtual memory.
pub record KernelHeap (V : Type 0) : Type 0 where
  pub words : ℕ → ℕ
  pub free_list_head : ℕ
  pub heap_max : ℕ
  pub vmm : V

-- `GET_SIZE` and `IS_FREE` of a header word.
abbrev pub size_of : ℕ → ℕ
size_of word = word / 2 * 2

abbrev pub free_of : ℕ → Bool
free_of word = not (word % 2 == 0)

-- `SET_SIZE`, `SET_FREE` and `CLEAR_FREE` of a header word; a size has its lowest bit clear.
abbrev pub with_size : ℕ → ℕ → ℕ
with_size word size = bit_or (word % 2) size

abbrev pub set_free : ℕ → ℕ
set_free word = size_of word + 1

abbrev pub clear_free : ℕ → ℕ
clear_free word = size_of word

-- The bytes of the block for a request.
abbrev pub block_bytes : ℕ → ℕ
block_bytes size =
    let bytes = (align_up size + 2 * header_bytes) % 2 ^ 32 in
    if ltb bytes free_header_bytes then free_header_bytes else bytes

module _ {V : Type 0} where
  abbrev pub store : (addr word : ℕ) → KernelHeap V → KernelHeap V
  store addr word h = record h { words = update h.words addr word }

  abbrev pub next_free : KernelHeap V → ℕ → ℕ
  next_free h block = h.words (block + 4)

  abbrev pub prev_free : KernelHeap V → ℕ → ℕ
  prev_free h block = h.words (block + 8)

  abbrev pub set_next_free : (block p : ℕ) → KernelHeap V → KernelHeap V
  set_next_free block p h = store (block + 4) p h

  abbrev pub set_prev_free : (block p : ℕ) → KernelHeap V → KernelHeap V
  set_prev_free block p h = store (block + 8) p h

  -- `get_footer`
  abbrev pub get_footer : ℕ → KernelHeap V → ℕ
  get_footer header h = header + size_of (h.words header) - header_bytes

  -- `update_footer`
  unfoldable pub update_footer : ℕ → KernelHeap V → KernelHeap V
  update_footer header h = store (get_footer header h) (h.words header) h

  -- `create_free_block`
  unfoldable pub create_free_block : (addr size : ℕ) → KernelHeap V → KernelHeap V
  create_free_block addr size h =
      let h₁ = store addr (set_free (with_size (h.words addr) size)) h in
      set_next_free addr 0 (set_prev_free addr 0 (update_footer addr h₁))

  -- `add_free_block`
  unfoldable pub add_free_block : ℕ → KernelHeap V → KernelHeap V
  add_free_block block h =
      let head = h.free_list_head in
      let h₁ = set_next_free block head h in
      let h₂ = if head == 0 then h₁ else set_prev_free head block h₁ in
      record (set_prev_free block 0 h₂) { free_list_head = block }

  -- `remove_free_block`
  unfoldable pub remove_free_block : ℕ → KernelHeap V → KernelHeap V
  remove_free_block block h =
      let prev = prev_free h block in
      let h₁ =
        if prev == 0
        then record h { free_list_head = next_free h block }
        else set_next_free prev (next_free h block) h in
      let next = next_free h₁ block in
      let h₂ = if next == 0 then h₁ else set_prev_free next (prev_free h₁ block) h₁ in
      set_next_free block 0 (set_prev_free block 0 h₂)

  -- `coalesce_blocks`
  unfoldable pub coalesce_blocks : (a b : ℕ) → KernelHeap V → KernelHeap V
  coalesce_blocks a b h =
      let h₁ = remove_free_block b h in
      let size = (size_of (h₁.words a) + size_of (h₁.words b)) % 2 ^ 32 in
      update_footer a (store a (set_free (with_size (h₁.words a) size)) h₁)

  -- `coalesce_with_next`
  unfoldable pub coalesce_with_next : ℕ → KernelHeap V → KernelHeap V
  coalesce_with_next block h =
      let next_addr = (block + size_of (h.words block)) % 2 ^ 32 in
      let merged = coalesce_blocks block next_addr h in
      if ltb h.heap_max next_addr || leb memory_space next_addr
      then h
      else if free_of (h.words next_addr)
      then merged
      else h

  -- `coalesce_with_prev`; `heap_start` is 0.
  unfoldable pub coalesce_with_prev : ℕ → KernelHeap V → KernelHeap V
  coalesce_with_prev block h =
      let footer = block - header_bytes in
      let merged = coalesce_blocks (block - size_of (h.words footer)) block h in
      if block == 0
      then h
      else if leb footer kheap_start || not (free_of (h.words footer))
      then h
      else merged

  -- `split_block`: the new block, 0 for NULL.
  unfoldable pub split_block : (block want_size : ℕ) → KernelHeap V → ℕ × KernelHeap V
  split_block block want_size h =
      let current_size = size_of (h.words block) in
      let new_addr = block + want_size in
      let h₁ = update_footer block (store block (with_size (h.words block) want_size) h) in
      let h₂ = create_free_block new_addr (current_size - want_size) h₁ in
      if ltb current_size (want_size + free_header_bytes)
      then (0, h)
      else (new_addr, add_free_block new_addr h₂)

  -- A block of the list, taken for `size` bytes.
  unfoldable pub take_block : (cur size : ℕ) → KernelHeap V → KernelHeap V
  take_block cur size h =
      let current_size = size_of (h.words cur) in
      let h₁ = remove_free_block cur h in
      let h₂ = store cur (clear_free (h₁.words cur)) h₁ in
      if leb (size + free_header_bytes) current_size
      then (split_block cur size h₂).1
      else update_footer cur h₂

  -- The search of `kmalloc` along the free list, with fuel; none when it runs out, 0 for no block.
  unfoldable pub find_block : (fuel cur size : ℕ) → KernelHeap V → Option ℕ
  find_block zero cur size h = if cur == 0 then some 0 else none
  find_block (suc fuel) cur size h =
      let rest = find_block fuel (next_free h cur) size h in
      if cur == 0 then some 0 else if leb size (size_of (h.words cur)) then some cur else rest

  -- `vmm_alloc_kernel_page_at`: the address of the page, 0 when it fails, and the memory afterwards.
  module _ (alloc_page_at : ℕ → (ℕ → ℕ) → V → ℕ × (ℕ → ℕ) × V) where
    -- `allocate_new_heap_page`
    unfoldable pub allocate_new_heap_page : KernelHeap V → ℕ × KernelHeap V
    allocate_new_heap_page h =
        let addr = h.heap_max in
        let (page, words, v) = alloc_page_at addr h.words h.vmm in
        let h₁ = record h { words = words; vmm = v } in
        let h₂ = record h₁ { heap_max = (addr + page_size) % 2 ^ 32 } in
        let h₃ = add_free_block addr (create_free_block addr page_size h₂) in
        if page == 0 then (0, h₁) else (page, coalesce_with_prev addr h₃)

    -- The page that `kmalloc` asks for when the free list is empty: false when there is none.
    unfoldable pub ensure_page : KernelHeap V → Bool × KernelHeap V
    ensure_page h =
        let (page, h₁) = allocate_new_heap_page h in
        if not (h.free_list_head == 0) then (true, h) else (not (page == 0), h₁)

    -- `kmalloc`, with fuel for the pages that it adds and for its walks along the list; none when it runs
    -- out.
    unfoldable pub kmalloc : (pages walk size : ℕ) → KernelHeap V → Option (ℕ × KernelHeap V)
    kmalloc zero walk size h = none
    kmalloc (suc pages) walk size h =
        let bytes = block_bytes size in
        let (ready, h₁) = ensure_page h in
        let (page, h₂) = allocate_new_heap_page h₁ in
        let again = kmalloc pages walk ((bytes + 2 ^ 32 - 2 * header_bytes) % 2 ^ 32) h₂ in
        if not ready then some (0, h₁) else elim (find_block walk h₁.free_list_head bytes h₁) [
          | none ↦ none
          | some cur ↦
              if not (cur == 0)
              then some (cur + header_bytes, take_block cur bytes h₁)
              else if page == 0
              then some (0, h₂)
              else again
        ]

  -- `kfree`
  unfoldable pub kfree : ℕ → KernelHeap V → KernelHeap V
  kfree ptr h =
      let block = ptr - header_bytes in
      let h₁ = update_footer block (store block (set_free (h.words block)) h) in
      if ptr == 0
      then h
      else coalesce_with_next block (coalesce_with_prev block (add_free_block block h₁))
