-- ===== src/Str/Memory.antt =====
-- The loops of memcpy, memmove, memset and memcmp against what they compute.
use dvivon_os.Base.{
  inr, ltb→lt, ap, inl, Bool-cases, ◌%◌, ◌-◌, ltb, refl, zero, ◌&&◌, arith, leb, suc, ◌↔◌,
  if◌then◌else◌, ◌+◌, ◌<◌, ◌≡◌, ◌≤◌,
}
use native.Mathlib.Decide.{ℕ_discrete, dec_lt}
use dvivon_os.Str.{
  update, same, Buf, ℕ, compare_from, copy_from, memcmp, memcpy, memmove, memset, move_down,
  move_up, set_from,
}

copy_from_lem :
    (n i : ℕ) (dst : Buf) (d : ℕ) (src : Buf) (s j : ℕ)
    → copy_from n i dst d src s j
      ≡ (if leb (d + i) j && ltb j (d + i + n) then src (s + (j - d)) else dst j)
unfolding copy_from
copy_from_lem zero i dst d src s j = ground arith
copy_from_lem (suc n) i dst d src s j = elim (ℕ_discrete j (d + i)) [
  | yes e ↦
      let at : s + i ≡ s + (j - d) = omega arith in
      ground
        (arith, ap src at, copy_from_lem n (i + 1) (update dst (d + i) (src (s + i))) d src s j)
  | no ne ↦ ground (arith, copy_from_lem n (i + 1) (update dst (d + i) (src (s + i))) d src s j)
]

-- `memcpy` puts the source's bytes into its range, and writes nowhere else.
pub memcpy_lem :
    (dst : Buf) (d : ℕ) (src : Buf) (s size j : ℕ)
    → memcpy dst d src s size j ≡ (if leb d j && ltb j (d + size) then src (s + (j - d)) else dst j)
unfolding memcpy
memcpy_lem dst d src s size j = ground (arith, copy_from_lem size 0 dst d src s j)

set_from_lem :
    (n i : ℕ) (buf : Buf) (d v j : ℕ)
    → set_from n i buf d v j ≡ (if leb (d + i) j && ltb j (d + i + n) then v % 256 else buf j)
unfolding set_from
set_from_lem zero i buf d v j = ground arith
set_from_lem (suc n) i buf d v j =
    ground (arith, set_from_lem n (i + 1) (update buf (d + i) (v % 256)) d v j)

pub memset_lem :
    (buf : Buf) (d v size j : ℕ)
    → memset buf d v size j ≡ (if leb d j && ltb j (d + size) then v % 256 else buf j)
unfolding memset
memset_lem buf d v size j = ground (arith, set_from_lem size 0 buf d v j)

-- Moving upwards to a lower place reads each byte before it is overwritten.
move_up_lem :
    (n i : ℕ) (buf : Buf) (d s j : ℕ)
    → d < s
    → move_up n i buf d s j
      ≡ (if leb (d + i) j && ltb j (d + i + n) then buf (s + (j - d)) else buf j)
unfolding move_up
move_up_lem zero i buf d s j h = ground arith
move_up_lem (suc n) i buf d s j h = elim (ℕ_discrete j (d + i)) [
  | yes e ↦
      let at : s + i ≡ s + (j - d) = omega arith in
      ground (arith, ap buf at, move_up_lem n (i + 1) (update buf (d + i) (buf (s + i))) d s j h)
  | no ne ↦ ground (arith, move_up_lem n (i + 1) (update buf (d + i) (buf (s + i))) d s j h)
]

move_down_lem :
    (i : ℕ) (buf : Buf) (d s j : ℕ)
    → s ≤ d
    → move_down i buf d s j ≡ (if leb d j && ltb j (d + i) then buf (s + (j - d)) else buf j)
unfolding move_down
move_down_lem zero buf d s j h = ground arith
move_down_lem (suc i) buf d s j h = elim (ℕ_discrete j (d + i)) [
  | yes e ↦
      let at : s + i ≡ s + (j - d) = omega arith in
      ground (arith, ap buf at, move_down_lem i (update buf (d + i) (buf (s + i))) d s j h)
  | no ne ↦ ground (arith, move_down_lem i (update buf (d + i) (buf (s + i))) d s j h)
]

-- `memmove` inside one block copies the bytes that stood at the source before the call, however the
-- two ranges overlap, and writes nowhere else.
pub memmove_lem :
    (buf : Buf) (d s size j : ℕ)
    → memmove buf d s size j ≡ (if leb d j && ltb j (d + size) then buf (s + (j - d)) else buf j)
unfolding memmove
memmove_lem buf d s size j = elim (Bool-cases (ltb d s)) [
  | inl up ↦ rw up (ground (arith, move_up_lem size 0 buf d s j (ltb→lt d s up)))
  | inr down ↦ rw down (move_down_lem size buf d s j (ground arith))
]

compare_from-same :
    (n i : ℕ) (a : Buf) (p : ℕ) (b : Buf) (q : ℕ)
    → compare_from n i a p b q ≡ same
    → (j : ℕ) → i ≤ j
    → j < i + n
    → a (p + j) ≡ b (q + j)
unfolding compare_from
compare_from-same zero i a p b q h j lo hi = absurd (omega arith)
compare_from-same (suc n) i a p b q h j lo hi = elim (dec_lt i j) [
  | yes lt ↦ compare_from-same n (i + 1) a p b q (ground arith) j (omega arith) (omega arith)
  | no ge ↦ let e : j ≡ i = omega arith in rw e (ground arith)
]

compare_from_of_eq :
    (n i : ℕ) (a : Buf) (p : ℕ) (b : Buf) (q : ℕ)
    → ((j : ℕ) → i ≤ j → j < i + n → a (p + j) ≡ b (q + j))
    → compare_from n i a p b q ≡ same
unfolding compare_from
compare_from_of_eq zero i a p b q h = refl
compare_from_of_eq (suc n) i a p b q h = ground (
  arith,
  h i (omega arith) (omega arith),
  compare_from_of_eq n (i + 1) a p b q (λ j lo hi. h j (omega arith) (omega arith)),
)

-- `memcmp` returns 0 exactly when the two ranges hold the same bytes.
memcmp_iff :
    (a : Buf) (p : ℕ) (b : Buf) (q size : ℕ)
    → (memcmp a p b q size ≡ same) ↔ ((j : ℕ) → j < size → a (p + j) ≡ b (q + j))
unfolding memcmp
memcmp_iff a p b q size = (
  λ h j lt. compare_from-same size 0 a p b q h j (omega arith) (omega arith),
  λ h. compare_from_of_eq size 0 a p b q (λ j lo hi. h j (omega arith)),
)
