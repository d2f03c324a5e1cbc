-- ===== src/Str/Tests.antt =====
-- string.c at concrete inputs.
use dvivon_os.Base.{refl, [], map, ◌≡◌}
use dvivon_os.Str.{less, ◌∷◌, memmove, strcmp}
use dvivon_os.Base.Buf.{Buf}

abbrev counting : Buf
counting i = i

-- Overlapping moves, both ways.
memmove_up :
    map (memmove counting 2 4 6) (0 ∷ 1 ∷ 2 ∷ 3 ∷ 4 ∷ 5 ∷ 6 ∷ 7 ∷ 8 ∷ [])
    ≡ 0 ∷ 1 ∷ 4 ∷ 5 ∷ 6 ∷ 7 ∷ 8 ∷ 9 ∷ 8 ∷ []
unfolding memmove
memmove_up = refl

memmove_down :
    map (memmove counting 4 2 4) (2 ∷ 3 ∷ 4 ∷ 5 ∷ 6 ∷ 7 ∷ 8 ∷ []) ≡ 2 ∷ 3 ∷ 2 ∷ 3 ∷ 4 ∷ 5 ∷ 8 ∷ []
unfolding memmove
memmove_down = refl

strcmp_runs : strcmp (b'a' ∷ b'b' ∷ []) (b'a' ∷ b'c' ∷ []) ≡ less
unfolding strcmp
strcmp_runs = refl
