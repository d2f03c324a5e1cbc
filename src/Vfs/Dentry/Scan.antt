-- ===== src/Vfs/Dentry/Scan.antt =====
-- The scanning of paths in src/fs/vfs/dentry.c, and the paths that spell a list of names.
use dvivon_os.Base.{
  sym, not, subst, inr, inl, Bool-cases, length-append, true, ◌||◌, Bool, ◌==◌, zero, ==_of_ne,
  refl, suc, ◌≤◌, [], arith, false, length, ◌≢◌, List, ℕ, ◌++◌, ◌<◌, ◌∷◌, ◌≡◌,
}
use dvivon_os.Str.{chars, CString}
use mathlib.Core.Bool.{false≢true}
use dvivon_os.Vfs.Dentry.{at_end, skip_slashes, take_component}

abbrev pub AllSlashes : CString → Type 0
AllSlashes [] = Unit {0}
AllSlashes (c ∷ cs) = (c ≡ b'/') × AllSlashes cs

abbrev pub NameBytes : CString → Type 0
NameBytes [] = Unit {0}
NameBytes (c ∷ cs) = (c ≢ 0) × (c ≢ b'/') × NameBytes cs

-- Where a name ends.
abbrev pub Boundary : CString → Type 0
Boundary [] = Unit {0}
Boundary (c ∷ cs) = c ≡ b'/'

-- A name that the code takes as one component.
pub record IsComponent (name : CString) : Type 0 where
  pub not_empty : 0 < length name
  pub short : length name ≤ 255
  pub bytes : NameBytes name

-- The paths that spell a list of names: slashes before, between and after them, one or more.
pub data Spells : CString → List CString → Type 0 where
  done : (s : CString) → AllSlashes s → Spells s []
  next :
      (s name rest : CString) (names : List CString)
      → AllSlashes s
      → IsComponent name
      → Boundary rest
      → Spells rest names
      → Spells (s ++ (name ++ rest)) (name ∷ names)

pub skip-all : (s : CString) → AllSlashes s → skip_slashes s ≡ []
unfolding skip_slashes
skip-all [] h = refl
skip-all (c ∷ cs) (e, h) = rw (e, skip-all cs h) refl

skip-name : (name rest : CString) → IsComponent name → skip_slashes (name ++ rest) ≡ name ++ rest
unfolding skip_slashes
skip-name [] rest v = absurd (omega (arith, v.not_empty))
skip-name (c ∷ cs) rest v = rw (==_of_ne c b'/' v.bytes.1) refl

pub skip-append :
    (s name rest : CString)
    → AllSlashes s
    → IsComponent name
    → skip_slashes (s ++ (name ++ rest)) ≡ name ++ rest
unfolding skip_slashes
skip-append [] name rest h v = skip-name name rest v
skip-append (c ∷ cs) name rest (e, h) v = rw (e, skip-append cs name rest h v) refl

pub take_component_lem :
    (n : ℕ) (name rest : CString)
    → length name ≤ n
    → NameBytes name
    → Boundary rest
    → take_component n (name ++ rest) ≡ (name, rest)
unfolding take_component
take_component_lem zero [] rest le h b = refl
take_component_lem zero (c ∷ cs) rest le h b = absurd (omega arith)
take_component_lem (suc n) [] [] le h b = refl
take_component_lem (suc n) [] (d ∷ ds) le h b = rw b refl
take_component_lem (suc n) (c ∷ cs) rest le (nz, ns, h) b =
    rw (take_component_lem n cs rest (omega arith) h b, ==_of_ne c 0 nz, ==_of_ne c b'/' ns) refl

pub not_at_end :
    (s name rest : CString) → AllSlashes s → IsComponent name → at_end (s ++ (name ++ rest)) ≡ false
not_at_end [] [] rest h v = absurd (omega (arith, v.not_empty))
not_at_end [] (c ∷ cs) rest h v = ==_of_ne c 0 v.bytes.0
not_at_end (d ∷ ds) name rest h v = rw (h.0) refl

pub ends_either : (b : Bool) → (b || true) ≡ true
ends_either true = refl
ends_either false = refl

-- The path starts with a slash.
abbrev pub slash_first : CString → Bool
slash_first path = chars path 0 == b'/'

pub skip-Spells :
    (path : CString) (names : List CString) → Spells path names → Spells (skip_slashes path) names
skip-Spells _ _ (done s slashes) = subst (λ p. Spells p []) (sym (skip-all s slashes)) (done [] tt)
skip-Spells _ _ (next s name rest names slashes v b h) =
    subst (λ p. Spells p (name ∷ names)) (sym (skip-append s name rest slashes v))
      (next [] name rest names tt v b h)

pub or_false : (a b : Bool) → (a || b) ≡ false → (a ≡ false) × (b ≡ false)
or_false false b e = (refl, e)
or_false true b e = absurd (false≢true (sym e))

skip-le : (p : CString) → length (skip_slashes p) ≤ length p
unfolding skip_slashes
skip-le [] = omega arith
skip-le (c ∷ cs) = ground (arith, skip-le cs)

-- What is left behind the slashes starts with none.
abbrev pub starts_name : CString → Bool
starts_name [] = true
starts_name (c ∷ cs) = not (c == b'/')

skip-starts_name : (p : CString) → starts_name (skip_slashes p) ≡ true
unfolding skip_slashes
skip-starts_name [] = refl
skip-starts_name (c ∷ cs) = elim (Bool-cases (c == b'/')) [
  | inl t ↦ rw t (skip-starts_name cs)
  | inr f ↦ rw f (rw f refl)
]

take_component-le : (n : ℕ) (p : CString) → length (take_component n p).1 ≤ length p
unfolding take_component
take_component-le zero p = omega arith
take_component-le (suc n) [] = omega arith
take_component-le (suc n) (c ∷ cs) = ground (arith, take_component-le n cs)

take_component-lt :
    (n : ℕ) (p : CString)
    → at_end p ≡ false
    → starts_name p ≡ true
    → length (take_component (suc n) p).1 < length p
unfolding take_component
take_component-lt n [] more name = absurd (false≢true (sym more))
take_component-lt n (c ∷ cs) more name = ground (arith, take_component-le n cs)

pub rest_shorter :
    (path : CString)
    → at_end (skip_slashes path) ≡ false
    → length (take_component 255 (skip_slashes path)).1 < length path
rest_shorter path more =
    let lt = take_component-lt 254 (skip_slashes path) more (skip-starts_name path) in
    omega (arith, skip-le path, lt)

pub shorter :
    (s name rest : CString) (fuel : ℕ)
    → IsComponent name
    → length (s ++ (name ++ rest)) < suc fuel
    → length rest < fuel
shorter s name rest fuel v lt =
    omega (arith, length-append s (name ++ rest), length-append name rest, v.not_empty)
