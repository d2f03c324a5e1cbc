-- ===== src/FsLib/Split.antt =====
-- `split_absolute_path` of src/lib/fs.c against the path that its results make up.
use dvivon_os.Base.{
  Option, none, ◌||◌, if◌then◌else◌, leb, zero, subst, get_or-append_left, some, false, not, sym,
  refl, ◌∙◌, ap, length-append, arith, get_or-append_right, suc, take-append, ◌==◌, [], true, ◌+◌,
  ◌-◌, ◌≡◌, ◌≤◌, Bool, drop, length, take, ℕ, ◌++◌, ◌<◌, ◌∷◌, List,
}
use dvivon_os.Str.Strings.{strlen-IsText, IsText}
use native.Mathlib.Decide.{dec_lt}
use dvivon_os.FsLib.{scan_down, slash_at, split_absolute_path}
use dvivon_os.Str.{chars, CString}

scan_down_lem :
    (p : ℕ → Bool) (n k : ℕ)
    → k ≤ n
    → p k ≡ false
    → ((j : ℕ) → k < j → j ≤ n → p j ≡ true)
    → scan_down p n ≡ k
unfolding scan_down
scan_down_lem p zero k le stop all = omega arith
scan_down_lem p (suc n) k le stop all = elim (dec_lt k (suc n)) [
  | yes lt ↦
      rw (all (suc n) lt (omega arith))
        (scan_down_lem p n k (omega arith) stop (λ j lo hi. all j lo (omega arith)))
  | no ge ↦
      let e : k ≡ suc n = omega arith in
      let here : p (suc n) ≡ false = subst (λ i. p i ≡ false) e stop in rw here (sym e)
]

drop-suc_append {ℓ} :
    {A : Type ℓ} (xs : List A) (x : A) (ys : List A) → drop (length xs + 1) (xs ++ x ∷ ys) ≡ ys
drop-suc_append [] x ys = refl
drop-suc_append (z ∷ xs) x ys =
    let e : suc (length xs) + 1 ≡ suc (length xs + 1) = omega arith in
    ap (λ n. drop n (z ∷ xs ++ x ∷ ys)) e ∙ drop-suc_append xs x ys

-- A path: a directory, a slash, a name, and slashes behind it.
abbrev pub joined : (dir name tail : CString) → CString
joined dir name tail = dir ++ b'/' ∷ (name ++ tail)

-- Nothing, or a path from the root.
abbrev pub is_absolute : CString → Bool
is_absolute [] = true
is_absolute (c ∷ cs) = c == b'/'

abbrev pub parent_of : CString → CString
parent_of [] = b'/' ∷ []
parent_of (c ∷ cs) = c ∷ cs

-- The last tests of the function.
abbrev chosen : (dir name : CString) → (pmax : ℕ) → Option (CString × CString)
chosen dir name pmax =
    if length dir == 0
    then some (b'/' ∷ [], name)
    else if leb pmax (length dir)
    then none
    else some (dir, name)

choose_parent :
    (dir name : CString) (pmax : ℕ)
    → length dir < pmax
    → chosen dir name pmax ≡ some (parent_of dir, name)
choose_parent [] name pmax h = refl
choose_parent (c ∷ cs) name pmax h = ground arith

starts_with_slash :
    (dir rest : CString) → is_absolute dir ≡ true → slash_at (dir ++ b'/' ∷ rest) 0 ≡ true
starts_with_slash [] rest h = refl
starts_with_slash (c ∷ cs) rest h = h

-- A name of its own, and what may stand behind it.
pub record IsName (name tail : CString) : Type 0 where
  pub not_empty : 0 < length name
  pub no_slash : (i : ℕ) → i < length name → slash_at name i ≡ false
  pub slashes : (i : ℕ) → i < length tail → slash_at tail i ≡ true

module _ (dir name tail : CString) (v : IsName name tail) where
  abbrev path : CString
  path = joined dir name tail

  abbrev sep : ℕ
  sep = length dir

  abbrev last : ℕ
  last = sep + length name

  length-path : length path ≡ sep + 1 + length name + length tail
  length-path = omega (arith, length-append dir (b'/' ∷ (name ++ tail)), length-append name tail)

  path_at : (i : ℕ) → chars path (sep + i) ≡ chars (b'/' ∷ (name ++ tail)) i
  path_at i = get_or-append_right dir (b'/' ∷ (name ++ tail)) i 0

  path-sep : slash_at path sep ≡ true
  path-sep = let e : sep + 0 ≡ sep = omega arith in rw (sym (ap (chars path) e) ∙ path_at 0) refl

  path_name : (j : ℕ) → sep < j → j ≤ last → slash_at path j ≡ false
  path_name j lo hi =
      let i = j - sep - 1 in
      let e : sep + suc i ≡ j = omega arith in
      let same : chars path j ≡ chars name i =
        sym (ap (chars path) e)
        ∙ path_at (suc i)
        ∙ get_or-append_left name tail i 0 (omega arith) in
      rw same (v.no_slash i (omega arith))

  path_tail : (j : ℕ) → last < j → j ≤ length path - 1 → slash_at path j ≡ true
  path_tail j lo hi =
      let i = j - last - 1 in
      let e : sep + suc (length name + i) ≡ j = omega arith in
      let same : chars path j ≡ chars tail i =
        sym (ap (chars path) e)
        ∙ path_at (suc (length name + i))
        ∙ get_or-append_right name tail i 0 in
      rw same (v.slashes i (omega (arith, length-path)))

  end_lem : scan_down (slash_at path) (length path - 1) ≡ last
  end_lem =
      scan_down_lem (slash_at path) (length path - 1) last (omega (arith, length-path))
        (path_name last (omega (arith, v.not_empty)) (omega arith)) path_tail

  slash_lem : scan_down (λ i. not (slash_at path i)) last ≡ sep
  slash_lem =
      scan_down_lem (λ i. not (slash_at path i)) last sep (omega arith) (ap not path-sep)
        (λ j lo hi. ap not (path_name j lo hi))

  name_lem : take (last - sep) (drop (sep + 1) path) ≡ name
  name_lem =
      let e : last - sep ≡ length name = omega arith in
      rw (e, drop-suc_append dir b'/' (name ++ tail)) (take-append name tail)

  dir_lem : take sep path ≡ dir
  dir_lem = take-append dir (b'/' ∷ (name ++ tail))

  -- The directory and the name that make up a path come back from split_absolute_path, for a directory
  -- that starts with a slash or, at the root, is empty; a name that is not empty and has no slash; and
  -- any number of slashes behind it; when both fit their buffers and no byte of the path is 0.
  pub split-joined :
      (pmax nmax : ℕ)
      → IsText path
      → is_absolute dir ≡ true
      → length dir < pmax
      → length name < nmax
      → split_absolute_path path pmax nmax ≡ some (parent_of dir, name)
  unfolding split_absolute_path
  split-joined pmax nmax text root fits_dir fits_name =
      rw (strlen-IsText path text, end_lem, slash_lem, name_lem, dir_lem)
        (rw (is_long, starts_with_slash dir (name ++ tail) root, has_name)
          (choose_parent dir name pmax fits_dir))
    where
      is_long : leb (length path) 1 ≡ false
      is_long = ground (arith, length-path, v.not_empty)

      has_name : ((last - sep == 0) || leb nmax (last - sep)) ≡ false
      has_name = ground (arith, v.not_empty)
