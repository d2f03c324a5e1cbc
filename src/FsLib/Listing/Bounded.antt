-- ===== src/FsLib/Listing/Bounded.antt =====
-- The walk of `fs_list_dir` over the records of a directory, src/lib/fs.c.
use dvivon_os.Base.{
  zero, ◌-◌, inr, inl, ◌==◌, ◌||◌, ltb, not, Bool-cases, refl, ◌%◌, ◌≤◌, length, ltb_of_le, suc,
  ◌+◌, ◌≡◌, Option, arith, [], ◌^◌, ◌<◌, ◌≢◌, ℕ, ◌∷◌, Bool, List, some,
}
use dvivon_os.FsLib.Listing.{listed, is_shown, list_from, ListedEntry}
use dvivon_os.Base.Buf.{get16, Buf}
use dvivon_os.Ext2.Entry.{rec_len}

-- Every entry has an inode.
abbrev pub AllUsed : List ListedEntry → Type 0
AllUsed [] = Unit {0}
AllUsed (e ∷ es) = (e.ino ≢ 0) × AllUsed es

module _ (skip_dot : Bool) (raw : Buf) (bytes : ℕ) (small : bytes < 2 ^ 31)
    (octets : (i : ℕ) → raw i < 256) where
  abbrev Lists : ℕ → Option (List ListedEntry) → Type 0
  Lists room r = (es : List ListedEntry) × (r ≡ some es) × (length es ≤ room) × AllUsed es

  rec_len-small : (off : ℕ) → rec_len raw off < 65536
  unfolding get16
  rec_len-small off = omega (arith, octets (off + 4), octets (off + 4 + 1))

  none_listed : (room : ℕ) → Lists room (some [])
  none_listed room = ([], refl, omega arith, tt)

  list_from-Lists :
      (fuel off room : ℕ)
      → bytes < off + fuel
      → Lists room (list_from fuel skip_dot raw bytes off room)
  unfolding list_from
  list_from-Lists zero off room lt = rw (ltb_of_le off bytes (omega arith)) (none_listed room)
  list_from-Lists (suc fuel) off room lt =
      let next = (off + rec_len raw off) % 2 ^ 32 in
      elim (Bool-cases (not (ltb off bytes) || (room == 0) || (rec_len raw off == 0))) [
        | inl t ↦ rw t (none_listed room)
        | inr more ↦
            let progress : bytes < next + fuel = ground (arith, rec_len-small off) in
            elim (Bool-cases (is_shown skip_dot raw off)) [
              | inl shown ↦
                  let (es, e, le, used) = list_from-Lists fuel next (room - 1) progress in
                  rw (more, shown, e)
                    (listed raw off ∷ es, refl, ground arith, ((λ z. ground arith), used))
              | inr hidden ↦ rw (more, hidden) (list_from-Lists fuel next room progress)
            ]
      ]

  -- fs_list_dir's walk over the records that were read, fewer than 2^31 bytes, ends, whatever bytes they are:
  -- the model's fuel is enough. It fills at most the given number of entries, each with an inode number
  -- that is not 0.
  pub list_from-Bounded :
      (max_entries : ℕ) → Lists max_entries (list_from (suc bytes) skip_dot raw bytes 0 max_entries)
  list_from-Bounded max_entries = list_from-Lists (suc bytes) 0 max_entries (omega arith)
