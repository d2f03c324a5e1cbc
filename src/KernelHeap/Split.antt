-- ===== src/KernelHeap/Split.antt =====
-- Blocks of src/kernel/memory/heap-allocator.c that are split and merged.
use dvivon_os.Base.{
  ap, sym, ltb_of_le, ◌∙◌, ◌&&◌, ==_refl, not, ◌||◌, ◌==◌, if◌then◌else◌, refl, true, leb, inr, inl,
  ◌⊎◌, ltb, ◌≤◌, Bool-cases, ◌-◌, ◌/◌, ◌^◌, arith, ◌+◌, Bool, bit_or, ◌%◌, ◌≡◌, ◌≢◌, ◌<◌, ℕ,
}
use dvivon_os.KernelHeap.{
  free_header_bytes, set_free, store, memory_space, update_footer, add_free_block,
  create_free_block, free_of, with_size, size_of, split_block, KernelHeap, coalesce_with_next,
  next_free, prev_free,
}
use dvivon_os.Base.Bits.{bit_or_step}
use Prim.Native.Nat.{bit_or-bitwise}

bit_or_zero : (b : ℕ) → bit_or 0 b ≡ b
bit_or_zero b = omega (arith, bit_or-bitwise 0 b)

with_size_lem : (word size : ℕ) → size % 2 ≡ 0 → with_size word size ≡ size + word % 2
with_size_lem word size even =
    let half : word % 2 / 2 ≡ 0 = omega arith in
    let low : bit_or (word % 2 / 2) (size / 2) ≡ size / 2 = rw half (bit_or_zero (size / 2)) in
    omega (arith, bit_or_step (word % 2) size, low)

header_lem : (word size : ℕ) → size % 2 ≡ 0 → set_free (with_size word size) ≡ size + 1
header_lem word size even = omega (arith, with_size_lem word size even)

module _ {V : Type 0} where
  tagged_words :
      (block word : ℕ) (h : KernelHeap V) (a : ℕ)
      → (update_footer block (store block word h)).words a
        ≡ (if a == block + size_of word - 4 then word else if a == block then word else h.words a)
  unfolding update_footer
  tagged_words block word h a = rw (==_refl block) refl

  created_words :
      (addr size : ℕ) (h : KernelHeap V) (a : ℕ)
      → size % 2 ≡ 0
      → (create_free_block addr size h).words a ≡ (
          if (a == addr + 4) || (a == addr + 8)
          then 0
          else if (a == addr + size - 4) || (a == addr)
          then size + 1
          else h.words a)
  unfolding create_free_block
  created_words addr size h a even =
      let word = set_free (with_size (h.words addr) size) in
      let e = header_lem (h.words addr) size even in ground (arith, tagged_words addr word h a, e)

  added_words :
      (block : ℕ) (h : KernelHeap V) (a : ℕ)
      → (add_free_block block h).words a ≡ (
          if a == block + 8
          then 0
          else if not (h.free_list_head == 0) && (a == h.free_list_head + 8)
          then block
          else if a == block + 4
          then h.free_list_head
          else h.words a)
  unfolding add_free_block
  added_words block h a = ground arith

  -- coalesce_with_next merges nothing and changes nothing, whatever the heap holds.
  pub coalesce_with_next_lem : (block : ℕ) (h : KernelHeap V) → coalesce_with_next block h ≡ h
  unfolding coalesce_with_next
  coalesce_with_next_lem block h =
      let next_addr = (block + size_of (h.words block)) % 2 ^ 32 in
      elim (Bool-cases (ltb h.heap_max next_addr)) [
        | inl t ↦ rw t refl
        | inr f ↦ let above : leb memory_space next_addr ≡ true = ground arith in rw (f, above) refl
      ]

  -- A block with the same word at both ends, and that word's size and mark.
  pub record IsBlock (h : KernelHeap V) (block size : ℕ) (is_free : Bool) : Type 0 where
    pub has_size : size_of (h.words block) ≡ size
    pub has_mark : free_of (h.words block) ≡ is_free
    pub footer : h.words (block + size - 4) ≡ h.words block

  -- A request that fits the block with room for a free header and a footer, and the head of the free list elsewhere.
  pub record Fits (block want : ℕ) (h : KernelHeap V) : Type 0 where
    pub even : want % 2 ≡ 0
    pub enough : free_header_bytes ≤ want
    pub room : want + 16 ≤ size_of (h.words block)
    pub apart :
        (h.free_list_head ≡ 0)
        ⊎ (h.free_list_head + 12 ≤ block)
        ⊎ (block + size_of (h.words block) ≤ h.free_list_head)

  module _ (block want : ℕ) (h : KernelHeap V) (v : Fits block want h) where
    abbrev size : ℕ
    size = size_of (h.words block)

    abbrev word : ℕ
    word = with_size (h.words block) want

    abbrev shrunk : KernelHeap V
    shrunk = update_footer block (store block word h)

    abbrev made : KernelHeap V
    made = create_free_block (block + want) (size - want) shrunk

    abbrev after : KernelHeap V
    after = add_free_block (block + want) made

    split_lem : split_block block want h ≡ (block + want, after)
    unfolding split_block
    split_lem = rw (ltb_of_le size (want + free_header_bytes) (omega (arith, v.room))) refl

    made_head : made.free_list_head ≡ h.free_list_head
    unfolding create_free_block update_footer
    made_head = refl

    word_lem : word ≡ want + h.words block % 2
    word_lem = with_size_lem (h.words block) want v.even

    rest_even : (size - want) % 2 ≡ 0
    rest_even = omega (arith, v.even, v.room)

    after_words :
        (a : ℕ)
        → after.words a ≡ (
            if a == block + want + 8
            then 0
            else if not (h.free_list_head == 0) && (a == h.free_list_head + 8)
            then block + want
            else if a == block + want + 4
            then h.free_list_head
            else if (a == block + size - 4) || (a == block + want)
            then size - want + 1
            else if (a == block + want - 4) || (a == block)
            then word
            else h.words a)
    after_words a = ground (
      arith,
      added_words (block + want) made a,
      made_head,
      created_words (block + want) (size - want) shrunk a rest_even,
      tagged_words block word h a,
      word_lem,
      v.even,
      v.enough,
      v.room,
    )

    first_header : after.words block ≡ word
    first_header = ground (arith, after_words block, v.enough, v.room, v.apart)

    first_footer : after.words (block + want - 4) ≡ word
    first_footer = ground (arith, after_words (block + want - 4), v.enough, v.room, v.apart)

    second_header : after.words (block + want) ≡ size - want + 1
    second_header = ground (arith, after_words (block + want), v.enough, v.room, v.apart)

    end_word : after.words (block + size - 4) ≡ size - want + 1
    end_word = ground (arith, after_words (block + size - 4), v.enough, v.room, v.apart)

    second_footer : after.words (block + want + (size - want) - 4) ≡ size - want + 1
    second_footer =
        let e : block + want + (size - want) - 4 ≡ block + size - 4 = omega (arith, v.room) in
        ap after.words e ∙ end_word

    after_head : after.free_list_head ≡ block + want
    unfolding add_free_block
    after_head = refl

    -- The old head of the free list follows the new block in it and has that before it; the links of the
    -- new block are these alone.
    new_next : after.words (block + want + 4) ≡ h.free_list_head
    new_next = ground (arith, after_words (block + want + 4), v.enough, v.room, v.apart)

    new_prev : after.words (block + want + 8) ≡ 0
    new_prev = ground (arith, after_words (block + want + 8))

    old_prev : (h.free_list_head ≡ 0) ⊎ (after.words (h.free_list_head + 8) ≡ block + want)
    old_prev = elim (Bool-cases (h.free_list_head == 0)) [
      | inl z ↦ inl (ground arith)
      | inr f ↦ inr (ground (arith, after_words (h.free_list_head + 8), v.enough, v.room, v.apart))
    ]

    -- A word that split_block leaves alone: outside the block and not the link of the old head back, or
    -- between the header and the footer of the first part.
    abbrev pub Untouched : ℕ → Type 0
    Untouched a =
        (((a < block) ⊎ (block + size ≤ a)) × ((h.free_list_head ≡ 0) ⊎ (a ≢ h.free_list_head + 8)))
        ⊎ ((block < a) × (a < block + want - 4))

    frame_outside :
        (a : ℕ)
        → (a < block) ⊎ (block + size ≤ a)
        → (h.free_list_head ≡ 0) ⊎ (a ≢ h.free_list_head + 8)
        → after.words a ≡ h.words a
    frame_outside a out link = ground (arith, after_words a, v.enough, v.room)

    frame_inside : (a : ℕ) → block < a → a < block + want - 4 → after.words a ≡ h.words a
    frame_inside a low high = ground (arith, after_words a, v.enough, v.room, v.apart)

    frame : (a : ℕ) → Untouched a → after.words a ≡ h.words a
    frame a (inl (out, link)) = frame_outside a out link
    frame a (inr (low, high)) = frame_inside a low high

    -- The block `new` in front of the free list of h.
    pub record Pushed (new : ℕ) (h' : KernelHeap V) : Type 0 where
      pub head : h'.free_list_head ≡ new
      pub next : next_free h' new ≡ h.free_list_head
      pub prev : prev_free h' new ≡ 0
      pub back : (h.free_list_head ≡ 0) ⊎ (prev_free h' h.free_list_head ≡ new)

    after-Pushed : Pushed (block + want) after
    after-Pushed = record { head = after_head; next = new_next; prev = new_prev; back = old_prev }

    abbrev pub Splits : ℕ → KernelHeap V → Type 0
    Splits new h' =
        (new ≡ block + want)
        × IsBlock h' block want (free_of (h.words block))
        × IsBlock h' new (size - want) true
        × Pushed new h'
        × ((a : ℕ) → Untouched a → h'.words a ≡ h.words a)

    -- split_block cuts a block into one of the wanted size, with the mark it had, and a free one of the
    -- rest, each with the same word at both ends, and puts the free one in front of the old head of the
    -- free list, linked both ways; a word between the header and the footer of the first part, and one
    -- outside the block other than the old head's link back, stays as it was; where the wanted size is
    -- even and at least 12, the rest has at least 16 bytes, and the old head of the free list lies
    -- outside the block.
    pub split_block-IsBlock : Splits (split_block block want h).0 (split_block block want h).1
    split_block-IsBlock = rw split_lem (
      refl,
      record {
        has_size = rw first_header (omega (arith, word_lem, v.even));
        has_mark = rw first_header (ground (arith, word_lem, v.even));
        footer = first_footer ∙ sym first_header;
      },
      record {
        has_size = rw second_header (omega (arith, rest_even));
        has_mark = rw second_header (ground (arith, rest_even));
        footer = second_footer ∙ sym second_header;
      },
      after-Pushed,
      frame,
    )
