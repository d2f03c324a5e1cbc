-- ===== src/Ext2/Entry/Codes.antt =====
-- The type codes and the length of an entry, src/fs/ext2/directory.c.
use dvivon_os.Base.{arith, ◌/◌, refl, true, ◌≤◌, ==_iff, ◌+◌, ◌==◌, ◌≡◌, ◌%◌, ◌<◌, ℕ}
use dvivon_os.Base.Bits.{bit_and-ones, bit_and_step}
use dvivon_os.Base.Search.{all_below-holds, all_below}
use dvivon_os.Ext2.Entry.{code_of, get_dir_entry_type, set_dir_entry_type, dir_rec_len}

codes_return : all_below (λ t. set_dir_entry_type (get_dir_entry_type t) == t) 8 ≡ true
unfolding all_below set_dir_entry_type get_dir_entry_type code_of
codes_return = refl

-- The EXT2_FT codes from 0 to 7 come back from the file types that they stand for.
set_dir_entry_type-get_dir_entry_type :
    (t : ℕ) → t < 8 → set_dir_entry_type (get_dir_entry_type t) ≡ t
set_dir_entry_type-get_dir_entry_type t lt =
    (==_iff _ t).0
      (all_below-holds (λ t. set_dir_entry_type (get_dir_entry_type t) == t) 8 t codes_return lt)

-- For a name length below 256, an entry's length is a multiple of 4, holds the 8 bytes of the
-- header and the name, and is the least such length.
pub dir_rec_len_lem :
    (n : ℕ)
    → n < 256
    → (dir_rec_len n % 4 ≡ 0) × (8 + n ≤ dir_rec_len n) × (dir_rec_len n < 8 + n + 4)
unfolding dir_rec_len
dir_rec_len_lem n lt =
    let x = 8 + n + 3 in
    let a = bit_and_step x 4294967292 in
    let b = bit_and_step (x / 2) 2147483646 in
    let c = bit_and-ones 30 (x / 2 / 2) (omega arith) in
    (omega (arith, a, b, c), omega (arith, a, b, c), omega (arith, a, b, c))
