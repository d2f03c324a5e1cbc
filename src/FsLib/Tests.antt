-- ===== src/FsLib/Tests.antt =====
-- The path /a/bc// split, and two directory entries listed.
use dvivon_os.Base.{
  false, refl, [], true, ◌==◌, ◌≡◌, arith, if◌then◌else◌, ◌<◌, ◌∷◌, ℕ, some, zero, suc,
}
use dvivon_os.FsLib.Split.{split-joined, joined, IsName}
use dvivon_os.FsLib.{slash_at, split_absolute_path}
use dvivon_os.Base.Buf.{get32, get16, Buf}
use dvivon_os.FsLib.Listing.{list_from}
use dvivon_os.Str.{CString}

abbrev dir_a : CString
dir_a = b'/' ∷ b'a' ∷ []

abbrev name_bc : CString
name_bc = b'b' ∷ b'c' ∷ []

abbrev two_slashes : CString
two_slashes = b'/' ∷ b'/' ∷ []

no_slash_in : (i : ℕ) → i < 2 → slash_at name_bc i ≡ false
no_slash_in zero h = refl
no_slash_in (suc zero) h = refl
no_slash_in (suc (suc i)) h = absurd (omega arith)

only_slashes : (i : ℕ) → i < 2 → slash_at two_slashes i ≡ true
only_slashes zero h = refl
only_slashes (suc zero) h = refl
only_slashes (suc (suc i)) h = absurd (omega arith)

name_bc-IsName : IsName name_bc two_slashes
name_bc-IsName = record { not_empty = omega arith; no_slash = no_slash_in; slashes = only_slashes }

split-joined_example :
    split_absolute_path (joined dir_a name_bc two_slashes) 256 256 ≡ some (dir_a, name_bc)
split-joined_example =
    split-joined dir_a name_bc two_slashes name_bc-IsName 256 256 (ground arith) refl (omega arith)
      (omega arith)

-- Inode 11 with the name "." and inode 12 with the name "x", each in 12 bytes.
abbrev two_entries : Buf
two_entries i =
    if i == 0
    then 11
    else if i == 4
    then 12
    else if i == 6
    then 1
    else if i == 7
    then 2
    else if i == 8
    then b'.'
    else if i == 12
    then 12
    else if i == 16
    then 12
    else if i == 18
    then 1
    else if i == 19
    then 1
    else if i == 20
    then b'x'
    else 0

octets : (i : ℕ) → two_entries i < 256
octets i = ground arith

only_x :
    list_from 25 true two_entries 24 0 8
    ≡ some (record { name = b'x' ∷ []; ino = 12; type = 1 } ∷ [])
unfolding list_from get16 get32
only_x = refl
