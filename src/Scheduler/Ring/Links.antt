-- ===== src/Scheduler/Ring/Links.antt =====
-- Runs of processes that are linked by `next`, in src/kernel/scheduler/scheduler.c.
use dvivon_os.Base.{
  false, true, ◌||◌, if◌then◌else◌, Bool, Option, ◌==◌, arith, ◌<◌, length, refl, ==_of_ne, ==_refl,
  ◌⊎◌, [], sym, ◌∙◌, ◌≡◌, ◌++◌, ◌∷◌, ◌≢◌, List, ℕ, some, zero, suc, inl, inr,
}
use dvivon_os.Base.Buf.{update}
use dvivon_os.Scheduler.{Process, follow}

abbrev pub NotIn : ℕ → List ℕ → Type 0
NotIn x [] = Unit {0}
NotIn x (y ∷ ys) = (x ≢ y) × NotIn x ys

abbrev pub Distinct : List ℕ → Type 0
Distinct [] = Unit {0}
Distinct (x ∷ xs) = NotIn x xs × Distinct xs

-- From `a` through the list to `z`.
abbrev pub Chain : (ℕ → Process) → ℕ → List ℕ → ℕ → Type 0
Chain process a [] z = (process a).next ≡ z
Chain process a (x ∷ xs) z = ((process a).next ≡ x) × Chain process x xs z

abbrev pub last : ℕ → List ℕ → ℕ
last a [] = a
last a (x ∷ xs) = last x xs

-- `u->next = n`
abbrev pub link : (ℕ → Process) → ℕ → ℕ → ℕ → Process
link process u n = update process u (record (process u) { next = n })

last-NotIn : (y a : ℕ) (xs : List ℕ) → NotIn y (a ∷ xs) → y ≢ last a xs
last-NotIn y a [] (ne, h) = ne
last-NotIn y a (x ∷ xs) (ne, h) = last-NotIn y x xs h

link-other :
    (process : ℕ → Process) (u n a : ℕ) → a ≢ u → (link process u n a).next ≡ (process a).next
link-other process u n a ne = rw (==_of_ne a u ne) refl

pub link_self : (process : ℕ → Process) (u n : ℕ) → (link process u n u).next ≡ n
link_self process u n = rw (==_refl u) refl

pub Chain-frame :
    (process : ℕ → Process) (u n a : ℕ) (xs : List ℕ) (z : ℕ)
    → NotIn u (a ∷ xs)
    → Chain process a xs z
    → Chain (link process u n) a xs z
Chain-frame process u n a [] z (ne, h) c = link-other process u n a (λ e. ne (sym e)) ∙ c
Chain-frame process u n a (x ∷ xs) z (ne, h) (e, c) =
    (link-other process u n a (λ e. ne (sym e)) ∙ e, Chain-frame process u n x xs z h c)

-- The last one led to another place.
pub Chain-relink :
    (process : ℕ → Process) (n a : ℕ) (xs : List ℕ) (z : ℕ)
    → Distinct (a ∷ xs)
    → Chain process a xs z
    → Chain (link process (last a xs) n) a xs n
Chain-relink process n a [] z d c = link_self process a n
Chain-relink process n a (x ∷ xs) z (out, d) (e, c) = (
  link-other process (last x xs) n a (last-NotIn a x xs out) ∙ e,
  Chain-relink process n x xs z d c,
)

pub Chain-snoc :
    (process : ℕ → Process) (a : ℕ) (xs : List ℕ) (z w : ℕ)
    → Chain process a xs z
    → (process z).next ≡ w
    → Chain process a (xs ++ z ∷ []) w
Chain-snoc process a [] z w c e = (c, e)
Chain-snoc process a (x ∷ xs) z w (e₁, c) e = (e₁, Chain-snoc process x xs z w c e)

pub NotIn-left : (y : ℕ) (xs ys : List ℕ) → NotIn y (xs ++ ys) → NotIn y xs
NotIn-left y [] ys h = tt
NotIn-left y (x ∷ xs) ys (ne, h) = (ne, NotIn-left y xs ys h)

-- One taken out of the middle.
pub Chain-unlink :
    (process : ℕ → Process) (a proc : ℕ) (pre post : List ℕ) (z : ℕ)
    → Distinct (a ∷ (pre ++ proc ∷ post))
    → Chain process a (pre ++ proc ∷ post) z
    → Chain (link process (last a pre) (process proc).next) a (pre ++ post) z
Chain-unlink process a proc [] [] z d (e, c) = link_self process a (process proc).next ∙ c
Chain-unlink process a proc [] (q ∷ qs) z ((ne, out), d) (e, (e₁, c)) = (
  link_self process a (process proc).next ∙ e₁,
  Chain-frame process a (process proc).next q qs z out c,
)
Chain-unlink process a proc (x ∷ xs) post z (out, d) (e, c) = (
  link-other process (last x xs) (process proc).next a
        (last-NotIn a x xs (NotIn-left a (x ∷ xs) (proc ∷ post) out))
      ∙ e,
  Chain-unlink process x proc xs post z d c,
)

pub NotIn-drop : (y p : ℕ) (xs ys : List ℕ) → NotIn y (xs ++ p ∷ ys) → (y ≢ p) × NotIn y (xs ++ ys)
NotIn-drop y p [] ys (ne, h) = (ne, h)
NotIn-drop y p (x ∷ xs) ys (ne, h) = let (apart, h₁) = NotIn-drop y p xs ys h in (apart, (ne, h₁))

pub NotIn-snoc : (y p : ℕ) (xs : List ℕ) → NotIn y xs → y ≢ p → NotIn y (xs ++ p ∷ [])
NotIn-snoc y p [] h ne = (ne, tt)
NotIn-snoc y p (x ∷ xs) (ne, h) apart = (ne, NotIn-snoc y p xs h apart)

pub Distinct-snoc : (p : ℕ) (xs : List ℕ) → NotIn p xs → Distinct xs → Distinct (xs ++ p ∷ [])
Distinct-snoc p [] h d = (tt, tt)
Distinct-snoc p (x ∷ xs) (ne, h) (out, d) =
    (NotIn-snoc x p xs out (λ e. ne (sym e)), Distinct-snoc p xs h d)

pub Distinct-drop : (p : ℕ) (xs ys : List ℕ) → Distinct (xs ++ p ∷ ys) → Distinct (xs ++ ys)
Distinct-drop p [] ys (out, d) = d
Distinct-drop p (x ∷ xs) ys (out, d) = ((NotIn-drop x p xs ys out).1, Distinct-drop p xs ys d)

-- The one taken out stands nowhere before its place.
pub Distinct-before : (p : ℕ) (xs ys : List ℕ) → Distinct (xs ++ p ∷ ys) → NotIn p xs
Distinct-before p [] ys d = tt
Distinct-before p (x ∷ xs) ys (out, d) =
    ((λ e. (NotIn-drop x p xs ys out).0 (sym e)), Distinct-before p xs ys d)

pub Chain-left :
    (process : ℕ → Process) (a proc : ℕ) (pre post : List ℕ) (z : ℕ)
    → Chain process a (pre ++ proc ∷ post) z
    → Chain process a pre proc
Chain-left process a proc [] post z (e, c) = e
Chain-left process a proc (x ∷ xs) post z (e, c) = (e, Chain-left process x proc xs post z c)

either_stops : (a : ℕ) (rest : Option ℕ) (b : Bool) → (if b || true then some a else rest) ≡ some a
either_stops a rest true = refl
either_stops a rest false = refl

-- The walk along `next` stops before the first process that it looks for.
pub follow-last :
    (fuel : ℕ) (process : ℕ → Process) (stop₁ stop₂ a : ℕ) (xs : List ℕ) (z : ℕ)
    → Chain process a xs z
    → (z ≡ stop₁) ⊎ (z ≡ stop₂)
    → NotIn stop₁ xs
    → NotIn stop₂ xs
    → length xs < fuel
    → follow fuel process stop₁ stop₂ a ≡ some (last a xs)
unfolding follow
follow-last zero process stop₁ stop₂ a xs z c stop h₁ h₂ lt = absurd (omega arith)
follow-last (suc fuel) process stop₁ stop₂ a [] z c (inl e) h₁ h₂ lt = rw (c, e, ==_refl stop₁) refl
follow-last (suc fuel) process stop₁ stop₂ a [] z c (inr e) h₁ h₂ lt =
    rw (c, e, ==_refl stop₂)
      (either_stops a (follow fuel process stop₁ stop₂ stop₂) (stop₂ == stop₁))
follow-last (suc fuel) process stop₁ stop₂ a (x ∷ xs) z (e, c) stop (n₁, h₁) (n₂, h₂) lt =
    rw (e, ==_of_ne x stop₁ (λ q. n₁ (sym q)), ==_of_ne x stop₂ (λ q. n₂ (sym q)))
      (follow-last fuel process stop₁ stop₂ x xs z c stop h₁ h₂ (omega arith))

pub Chain-last :
    (process : ℕ → Process) (a : ℕ) (xs : List ℕ) (z : ℕ)
    → Chain process a xs z
    → (process (last a xs)).next ≡ z
Chain-last process a [] z c = c
Chain-last process a (x ∷ xs) z (e, c) = Chain-last process x xs z c

pub Chain-right :
    (process : ℕ → Process) (a proc : ℕ) (pre post : List ℕ) (z : ℕ)
    → Chain process a (pre ++ proc ∷ post) z
    → Chain process proc post z
Chain-right process a proc [] post z (e, c) = c
Chain-right process a proc (x ∷ xs) post z (e, c) = Chain-right process x proc xs post z c

pub next-ne :
    (process : ℕ → Process) (proc : ℕ) (post : List ℕ) (z : ℕ)
    → Chain process proc post z
    → NotIn proc post
    → proc ≢ z
    → (process proc).next ≢ proc
next-ne process proc [] z c h ne e = ne (sym e ∙ c)
next-ne process proc (q ∷ qs) z (e₁, c) (apart, h) ne e = apart (sym e ∙ e₁)

pub Distinct-right : (p : ℕ) (xs ys : List ℕ) → Distinct (xs ++ p ∷ ys) → NotIn p ys
Distinct-right p [] ys (out, d) = out
Distinct-right p (x ∷ xs) ys (out, d) = Distinct-right p xs ys d
