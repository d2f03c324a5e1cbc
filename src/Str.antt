-- ===== src/Str.antt =====
-- src/lib/string.c: memory blocks and NUL-terminated strings.
-- A block is the `Buf` behind a base pointer with an offset. A string is the list of its bytes up to
-- the end of its array, behind which stands the NUL: a zero byte inside ends it earlier.
pub mod Memory
pub mod Strings
mod Tests
use dvivon_os.Base.{
  [], zero, ◌%◌, ◌&&◌, ltb, not, ◌+◌, ◌==◌, get_or, if◌then◌else◌, suc, ◌∷◌, List, ℕ,
}
use dvivon_os.Base.Buf.{update, Buf}

-- `dst[i] = src[i]` for i from `i` on, n times.
copy_from : (n i : ℕ) → (dst : Buf) → (d : ℕ) → (src : Buf) → (s : ℕ) → Buf
copy_from zero i dst d src s = dst
copy_from (suc n) i dst d src s = copy_from n (i + 1) (update dst (d + i) (src (s + i))) d src s

-- `memcpy(dst + d, src + s, size)`: the blocks are `restrict`.
unfoldable pub memcpy : (dst : Buf) → (d : ℕ) → (src : Buf) → (s size : ℕ) → Buf
unfolding copy_from
memcpy dst d src s size = copy_from size 0 dst d src s

-- `memmove(buf + d, buf + s, size)` inside one block, upwards or downwards.
move_up : (n i : ℕ) → (buf : Buf) → (d s : ℕ) → Buf
move_up zero i buf d s = buf
move_up (suc n) i buf d s = move_up n (i + 1) (update buf (d + i) (buf (s + i))) d s

move_down : (i : ℕ) → (buf : Buf) → (d s : ℕ) → Buf
move_down zero buf d s = buf
move_down (suc i) buf d s = move_down i (update buf (d + i) (buf (s + i))) d s

unfoldable pub memmove : (buf : Buf) → (d s size : ℕ) → Buf
unfolding move_up move_down
memmove buf d s size = if ltb d s then move_up size 0 buf d s else move_down size buf d s

set_from : (n i : ℕ) → (buf : Buf) → (d v : ℕ) → Buf
set_from zero i buf d v = buf
set_from (suc n) i buf d v = set_from n (i + 1) (update buf (d + i) (v % 256)) d v

-- `memset(buf + d, value, size)`
unfoldable pub memset : (buf : Buf) → (d value size : ℕ) → Buf
unfolding set_from
memset buf d value size = set_from size 0 buf d value

-- The sign of `memcmp` and `strcmp`: -1, 0 and 1 of the code, or a byte difference.
pub data Sign : Type 0 where
  less same more : Sign

compare_from : (n i : ℕ) → (a : Buf) → (p : ℕ) → (b : Buf) → (q : ℕ) → Sign
compare_from zero i a p b q = same
compare_from (suc n) i a p b q =
    let x = a (p + i) in
    let y = b (q + i) in
    let rest = compare_from n (i + 1) a p b q in
    if ltb x y then less else (if ltb y x then more else rest)

-- `memcmp(a + p, b + q, size)`
unfoldable pub memcmp : (a : Buf) → (p : ℕ) → (b : Buf) → (q size : ℕ) → Sign
unfolding compare_from
memcmp a p b q size = compare_from size 0 a p b q

abbrev pub CString : Type 0
CString = List ℕ

-- The bytes that a pointer to the string sees.
abbrev pub chars : CString → Buf
chars s i = get_or s i 0

unfoldable pub strlen : CString → ℕ
strlen [] = 0
strlen (c ∷ s) = let rest = suc (strlen s) in if c == 0 then 0 else rest

abbrev sign_of : ℕ → ℕ → Sign
sign_of a b = if ltb a b then less else (if ltb b a then more else same)

unfoldable pub strcmp : CString → CString → Sign
strcmp [] t = sign_of 0 (chars t 0)
strcmp (c ∷ s) [] = sign_of c 0
strcmp (c ∷ s) (d ∷ t) =
    let rest = strcmp s t in if not (c == 0) && (c == d) then rest else sign_of c d

unfoldable pub strncmp : ℕ → CString → CString → Sign
strncmp zero s t = same
strncmp (suc n) [] t = sign_of 0 (chars t 0)
strncmp (suc n) (c ∷ s) [] = sign_of c 0
strncmp (suc n) (c ∷ s) (d ∷ t) =
    let rest = strncmp n s t in if not (c == 0) && (c == d) then rest else sign_of c d

-- `strcpy(dest + d, src)`: the bytes up to the NUL, and the NUL.
unfoldable pub strcpy : Buf → (d : ℕ) → CString → Buf
strcpy dest d [] = update dest d 0
strcpy dest d (c ∷ s) =
    let rest = strcpy (update dest d c) (d + 1) s in if c == 0 then update dest d 0 else rest
