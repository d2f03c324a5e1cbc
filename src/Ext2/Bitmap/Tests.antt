-- ===== src/Ext2/Bitmap/Tests.antt =====
-- The allocators on a file system of one group.
use dvivon_os.Ext2.Bitmap.Release.{Fits, free-marks, free-alloc-marks}
use dvivon_os.Base.{
  inr, not, inl, ◌%◌, ◌/◌, true, ◌==◌, ◌&&◌, zero, ◌*◌, suc, ◌≤◌, ◌<◌, arith, ℕ, refl, ◌≡◌,
}
use dvivon_os.Ext2.Bitmap.{
  free, relative, same_kind, bitmap_block, per_group, Kind, blocks, inodes, mark_used, store,
  take_bit, alloc,
}
use dvivon_os.Ext2.Bitmap.Outcome.{alloc-Outcome, Outcome}
use dvivon_os.Ext2.State.{Fs, gd_block, flush_group_desc, flush_superblock}
use dvivon_os.Ext2.Bitmap.Alloc.{Took}
use dvivon_os.Ext2.Bitmap.Store.{in_use, IsLaidOut}
use dvivon_os.Ext2.Ram.{small_gd, small_sb, small, ram-Reliable, ram}
use dvivon_os.Str.{memcpy}
use dvivon_os.Base.Buf.{put16, get16, put32, get32}
use dvivon_os.Base.Search.{find_from}

small_bits : (k : Kind) → per_group k small_sb ≤ 8 * 1024
unfolding get32 put32
small_bits blocks = omega arith
small_bits inodes = omega arith

small_apart :
    (k k' : Kind) (g h : ℕ)
    → g < 1
    → h < 1
    → bitmap_block k small_gd g ≡ bitmap_block k' small_gd h
    → (same_kind k k' && (g == h)) ≡ true
unfolding get32 put32 get16 put16
small_apart blocks blocks zero zero hg hh e = refl
small_apart inodes inodes zero zero hg hh e = refl
small_apart blocks inodes zero zero hg hh e = absurd (omega arith)
small_apart inodes blocks zero zero hg hh e = absurd (omega arith)
small_apart k k' (suc g) h hg hh e = absurd (omega arith)
small_apart k k' g (suc h) hg hh e = absurd (omega arith)

small_block : (k : Kind) (g : ℕ) → g < 1 → 2 < bitmap_block k small_gd g
unfolding get32 put32 get16 put16
small_block blocks zero hg = omega arith
small_block inodes zero hg = omega arith
small_block k (suc g) hg = absurd (omega arith)

small_table : (h : ℕ) → h < 1 → gd_block ram small h ≡ 2
unfolding get32 put32
small_table zero hh = refl
small_table (suc h) hh = absurd (omega arith)

small-IsLaidOut : IsLaidOut ram 1024 (ram-Reliable 1024) small
small-IsLaidOut = record {
  size = refl;
  bits = small_bits;
  apart = small_apart;
  off_descriptors = λ k g h hg hh e. omega (arith, small_block k g hg, small_table h hh);
  off_superblock = λ k g hg e. omega (arith, small_block k g hg);
}

-- Block 11 is the first that is free.
alloc_block_runs : (alloc ram blocks small).0 ≡ 11
unfolding alloc find_from take_bit store flush_group_desc flush_superblock get32 put32 get16 put16
    memcpy mark_used
alloc_block_runs = refl

alloc_inode_runs : (alloc ram inodes small).0 ≡ 3
unfolding alloc find_from take_bit store flush_group_desc flush_superblock get32 put32 get16 put16
    memcpy mark_used
alloc_inode_runs = refl

alloc_example : Outcome ram 1024 (ram-Reliable 1024) blocks small (alloc ram blocks small)
alloc_example = alloc-Outcome ram 1024 (ram-Reliable 1024) blocks small small-IsLaidOut

abbrev allocated : Fs ram
allocated = (alloc ram blocks small).1

took : Took ram 1024 (ram-Reliable 1024) blocks small (alloc ram blocks small).0 allocated
took = elim alloc_example [
  | inl t ↦ t
  | inr (z, _, _) ↦ absurd (omega (arith, z, alloc_block_runs))
]

small_Fits : Fits blocks small_sb 1
unfolding get32 put32
small_Fits = omega arith

free-alloc-marks_example :
    in_use ram 1024
      (ram-Reliable 1024)
      inodes
      (free ram blocks (alloc ram blocks small).0 allocated)
      0
      5
    ≡ in_use ram 1024 (ram-Reliable 1024) inodes small 0 5
free-alloc-marks_example =
    free-alloc-marks ram 1024 (ram-Reliable 1024) blocks small small-IsLaidOut took small_Fits
      (λ e. omega (arith, e)) inodes 0 5 (omega arith) (omega arith)

small_group : relative blocks small_sb 8 / per_group blocks small_sb ≡ 0
unfolding get32 put32
small_group = refl

small_index : relative blocks small_sb 8 % per_group blocks small_sb ≡ 7
unfolding get32 put32
small_index = refl

-- Block 8 is the one of index 7.
free-marks_example :
    in_use ram 1024 (ram-Reliable 1024) blocks (free ram blocks 8 small) 0 7
    ≡ (in_use ram 1024 (ram-Reliable 1024) blocks small 0 7 && not true)
free-marks_example =
    free-marks ram 1024 (ram-Reliable 1024) blocks small small-IsLaidOut 0 7 8 (omega arith)
      small_group small_index (λ e. omega (arith, e)) blocks 0 7 (omega arith) (omega arith)
