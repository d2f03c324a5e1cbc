-- ===== src/Str/Strings.antt =====
-- strlen, strcmp and strcpy on strings with no NUL inside.
use native.Mathlib.Decide.{ℕ_discrete, dec_lt}
use dvivon_os.Str.{update, chars, same, Buf, ◌∷◌, CString, strcmp, strcpy, strlen}
use dvivon_os.Base.{
  ap, suc, ◌-◌, ◌+◌, ◌&&◌, leb, refl, [], arith, if◌then◌else◌, ◌↔◌, length, ℕ, ◌≢◌, ◌≡◌,
}

-- No byte of the list is the NUL.
abbrev pub IsText : CString → Type 0
IsText [] = Unit {0}
IsText (c ∷ s) = (c ≢ 0) × IsText s

-- `strlen` of a string with no NUL inside is the number of its bytes.
pub strlen-IsText : (s : CString) → IsText s → strlen s ≡ length s
unfolding strlen
strlen-IsText [] h = refl
strlen-IsText (c ∷ s) h = ground (arith, strlen-IsText s h.1)

-- `strcmp` returns 0 exactly for equal strings.
pub strcmp-same : (s t : CString) → IsText s → IsText t → strcmp s t ≡ same → s ≡ t
unfolding strcmp
strcmp-same [] [] hs ht h = refl
strcmp-same [] (d ∷ t) hs ht h = absurd (ground arith)
strcmp-same (c ∷ s) [] hs ht h = absurd (ground arith)
strcmp-same (c ∷ s) (d ∷ t) hs ht h = ground (arith, strcmp-same s t hs.1 ht.1)

pub strcmp_refl : (s : CString) → strcmp s s ≡ same
unfolding strcmp
strcmp_refl [] = refl
strcmp_refl (c ∷ s) = ground (arith, strcmp_refl s)

-- `strcmp` of two strings without a zero byte inside returns 0 exactly when they are equal.
pub strcmp_iff : (s t : CString) → IsText s → IsText t → (strcmp s t ≡ same) ↔ (s ≡ t)
strcmp_iff s t hs ht = (strcmp-same s t hs ht, λ e. rw e (strcmp_refl t))

-- `strcpy` of a string without a zero byte inside writes the string and its NUL, and nothing else.
pub strcpy_lem :
    (dest : Buf) (d : ℕ) (s : CString) (j : ℕ)
    → IsText s
    → strcpy dest d s j ≡ (if leb d j && leb j (d + length s) then chars s (j - d) else dest j)
unfolding strcpy
strcpy_lem dest d [] j h = ground arith
strcpy_lem dest d (c ∷ s) j h = elim (dec_lt d j) [
  | yes lt ↦
      let e : j - d ≡ suc (j - (d + 1)) = omega arith in
      ground (arith, ap (chars (c ∷ s)) e, strcpy_lem (update dest d c) (d + 1) s j h.1)
  | no ge ↦ elim (ℕ_discrete j d) [
    | yes e ↦
        let z : j - d ≡ 0 = omega arith in
        ground (arith, ap (chars (c ∷ s)) z, strcpy_lem (update dest d c) (d + 1) s j h.1)
    | no ne ↦ ground (arith, strcpy_lem (update dest d c) (d + 1) s j h.1)
  ]
]
