-- ===== src/Ext2/Bitmap/Outcome.antt =====
-- What `ext2_alloc_block` and `ext2_alloc_inode` promise.
use dvivon_os.Base.{sym, ◌<◌, subst, arith, inr, ◌==◌, Bool-cases, inl, refl, ◌≡◌, ◌⊎◌, ℕ}
use dvivon_os.Ext2.Bitmap.{inodes, blocks, group_bits, alloc, total_free, Fs, Kind}
use dvivon_os.Ext2.Bitmap.Alloc.{alloc_from-FromGroup, FullFrom, FromGroup, Unchanged, Took}
use dvivon_os.Ext2.Bitmap.Store.{IsLaidOut}
use dvivon_os.Ext2.Platform.{Reliable, Platform}

group_bits_same :
    (pf : Platform) (k : Kind) (s : Fs pf) (h : pf.Heap) (g : ℕ)
    → group_bits pf k (record s { heap = h }) g ≡ group_bits pf k s g
group_bits_same pf blocks s h g = refl
group_bits_same pf inodes s h g = refl

module _ (pf : Platform) (bs : ℕ) (ok : Reliable pf bs) (k : Kind) where
  -- Why `ext2_alloc_block` and `ext2_alloc_inode` returns no block.
  pub data Refusal (s : Fs pf) : Type 0 where
    none_left : total_free k s.sb ≡ 0 → Refusal s
    no_memory : (pf.kmalloc s.heap s.block_size).0 ≡ 0 → Refusal s
    all_full : FullFrom pf bs ok k s 0 → Refusal s

  abbrev pub Outcome : Fs pf → ℕ × Fs pf → Type 0
  Outcome s (b, s') = Took pf bs ok k s b s' ⊎ ((b ≡ 0) × Unchanged pf bs ok k s s' × Refusal s)

  module _ (s : Fs pf) (laid : IsLaidOut pf bs ok s) where
    abbrev heap : pf.Heap
    heap = (pf.kmalloc s.heap s.block_size).1

    abbrev with_heap : Fs pf
    with_heap = record s { heap = heap }

    Unchanged-with_heap : Unchanged pf bs ok k s with_heap
    Unchanged-with_heap = record {
      dev = refl;
      tables = record { sb = refl; group_desc = refl; groups_count = refl; block_size = refl };
    }

    laid-with_heap : IsLaidOut pf bs ok with_heap
    laid-with_heap = record {
      size = laid.size;
      bits = laid.bits;
      apart = laid.apart;
      off_descriptors = laid.off_descriptors;
      off_superblock = laid.off_superblock;
    }

    Outcome-with_heap : (r : ℕ × Fs pf) → FromGroup pf bs ok k with_heap 0 r → Outcome s r
    Outcome-with_heap (b, s') (inl t) = inl (record {
      group = t.group;
      index = t.index;
      group_lt = t.group_lt;
      index_lt = subst (λ n. t.index < n) (group_bits_same pf k s heap t.group) t.index_lt;
      was_free = t.was_free;
      is_numbered = t.is_numbered;
      marks = t.marks;
      count = t.count;
      shape = record {
        bitmaps = t.shape.bitmaps;
        per_group_same = t.shape.per_group_same;
        first = t.shape.first;
        groups = t.shape.groups;
        size = t.shape.size;
      };
    })
    Outcome-with_heap (b, s') (inr (z, same, full)) = inr (
      z,
      record {
        dev = same.dev;
        tables = record {
          sb = same.tables.sb;
          group_desc = same.tables.group_desc;
          groups_count = same.tables.groups_count;
          block_size = same.tables.block_size;
        };
      },
      all_full (λ h j lo hi some lt.
          full h j lo hi some (subst (λ n. j < n) (sym (group_bits_same pf k s heap h)) lt)),
    )

    -- On a volume that is laid out as `mke2fs` does, on a device that does not fail, `ext2_alloc_block`
    -- and `ext2_alloc_inode` take a block or inode that was free and mark it and no other on disk, with
    -- the number and the free count that belong to it; or they return 0 and leave the device and the
    -- tables alone, because the free count is 0, memory ran out, or everything in each group with a
    -- free count is in use.
    pub alloc-Outcome : Outcome s (alloc pf k s)
    unfolding alloc
    alloc-Outcome = elim (Bool-cases (total_free k s.sb == 0)) [
      | inl none ↦ rw none (
          inr (
            refl,
            record {
              dev = refl;
              tables = record {
                sb = refl;
                group_desc = refl;
                groups_count = refl;
                block_size = refl;
              };
            },
            none_left (ground arith),
          ))
      | inr left ↦ elim (Bool-cases ((pf.kmalloc s.heap s.block_size).0 == 0)) [
        | inl null ↦ rw (left, null) (inr (refl, Unchanged-with_heap, no_memory (ground arith)))
        | inr p ↦
            rw (left, p)
              (Outcome-with_heap _ (
                alloc_from-FromGroup pf bs ok k with_heap laid-with_heap s.groups_count 0
                  (pf.kmalloc s.heap s.block_size).0
                  (pf.memory heap (pf.kmalloc s.heap s.block_size).0) (omega arith)))
      ]
    ]
