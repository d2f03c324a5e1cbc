-- ===== src/Timer/Table.antt =====
-- The callbacks of src/kernel/time/time.c as a list.
use dvivon_os.Base.{
  lt→ltb, ◌-◌, ltb_of_le, ==_refl, ==_of_ne, ◌≤◌, Option-cases, false, refl, ==_iff, ap₂,
  Bool-cases, ◌∙◌, ap, ltb, sym, ◌&&◌, arith, leb, ◌==◌, [], if◌then◌else◌, ◌++◌, ◌+◌, ◌∷◌, List,
  ◌<◌, ◌≡◌, ℕ, none, some, zero, suc, inl, inr,
}
use dvivon_os.Base.Search.{find_from-some, find_from}
use dvivon_os.Timer.{
  remove_at, Timer, register_timer_callback, shift_down, unregister_timer_callback,
}
use dvivon_os.Base.Buf.{update}

unfoldable pub listing : (ℕ → ℕ) → ℕ → ℕ → List ℕ
listing f i zero = []
listing f i (suc n) = f i ∷ listing f (i + 1) n

-- The registered callbacks in their order.
unfoldable pub table : Timer → List ℕ
table t = listing t.callbacks 0 t.callback_count

-- A list without the first place of a number.
unfoldable pub without : ℕ → List ℕ → List ℕ
without x [] = []
without x (y ∷ ys) = let rest = y ∷ without x ys in if y == x then ys else rest

listing-congr :
    (f g : ℕ → ℕ) (i j n : ℕ)
    → ((d : ℕ) → d < n → f (i + d) ≡ g (j + d))
    → listing f i n ≡ listing g j n
unfolding listing
listing-congr f g i j zero same = refl
listing-congr f g i j (suc n) same =
    let here : f i ≡ g j = first i j (same 0 (omega arith)) in
    ap₂ ◌∷◌ here
      (listing-congr f g (i + 1) (j + 1) n (λ d lt. next i j d (same (suc d) (omega arith))))
  where
    first : (i j : ℕ) → f (i + 0) ≡ g (j + 0) → f i ≡ g j
    first i j e =
        let a : i + 0 ≡ i = omega arith in
        let b : j + 0 ≡ j = omega arith in sym (ap f a) ∙ e ∙ ap g b

    next : (i j d : ℕ) → f (i + suc d) ≡ g (j + suc d) → f (i + 1 + d) ≡ g (j + 1 + d)
    next i j d e =
        let a : i + suc d ≡ i + 1 + d = omega arith in
        let b : j + suc d ≡ j + 1 + d = omega arith in sym (ap f a) ∙ e ∙ ap g b

shift_down_lem :
    (n i : ℕ) (f : ℕ → ℕ) (j : ℕ)
    → shift_down n i f j ≡ (if leb i j && ltb j (i + n) then f (j + 1) else f j)
unfolding shift_down
shift_down_lem zero i f j = ground arith
shift_down_lem (suc n) i f j = elim (Bool-cases (j == i)) [
  | inl t ↦
      let e : j ≡ i = (==_iff j i).0 t in
      ground (arith, shift_down_lem n (i + 1) (update f i (f (i + 1))) j, ap (λ m. f (m + 1)) e)
  | inr ne ↦ ground (arith, shift_down_lem n (i + 1) (update f i (f (i + 1))) j)
]

listing-snoc : (f : ℕ → ℕ) (i n : ℕ) → listing f i (suc n) ≡ listing f i n ++ f (i + n) ∷ []
unfolding listing
listing-snoc f i zero = let e : i + 0 ≡ i = omega arith in rw (ap f e) refl
listing-snoc f i (suc n) =
    let e : i + 1 + n ≡ i + suc n = omega arith in
    ap (◌∷◌ (f i)) (listing-snoc f (i + 1) n ∙ ap (λ m. listing f (i + 1) n ++ f m ∷ []) e)

module _ (f g : ℕ → ℕ) (x : ℕ) where
  -- The values of `g` are those of `f` with the one at k taken out.
  abbrev Shifted : ℕ → ℕ → ℕ → Type 0
  Shifted k n i = (j : ℕ) → i ≤ j → j < i + n → g j ≡ (if ltb j k then f j else f (j + 1))

  Shifted-here : (k n i : ℕ) → k ≡ i → Shifted k n i → listing g i n ≡ listing f (i + 1) n
  Shifted-here k n i e same = listing-congr g f i (i + 1) n (λ d lt.
      let next : i + d + 1 ≡ i + 1 + d = omega arith in
      same (i + d) (omega arith) (omega arith) ∙ rw (ltb_of_le (i + d) k (omega arith)) (ap f next))

  without-hit :
      (k n i : ℕ)
      → find_from (λ i. f i == x) i (suc n) ≡ some k
      → Shifted k n i
      → listing g i n ≡ without x (listing f i (suc n))
  unfolding listing without find_from
  without-hit k zero i found same = elim (Bool-cases (f i == x)) [
    | inl t ↦ rw t refl
    | inr miss ↦ absurd (ground (arith, rw miss at found))
  ]
  without-hit k (suc n) i found same = elim (Bool-cases (f i == x)) [
    | inl t ↦
        let here : some i ≡ some k = rw t at found in
        let e : k ≡ i = ground arith in rw t (Shifted-here k (suc n) i e same)
    | inr miss ↦
        let later = rw miss at found in
        let (lo, _, _, _) = find_from-some (λ i. f i == x) (i + 1) (suc n) later in
        let first : g i ≡ f i =
          same i (omega arith) (omega arith) ∙ rw (lt→ltb i k (omega arith)) refl in
        rw miss (
          ap₂ ◌∷◌ first
            (without-hit k n (i + 1) later (λ j lo hi. same j (omega arith) (omega arith))))
  ]

  without-miss :
      (n i : ℕ) → find_from (λ i. f i == x) i n ≡ none → without x (listing f i n) ≡ listing f i n
  unfolding listing without find_from
  without-miss zero i nothing = refl
  without-miss (suc n) i nothing = elim (Bool-cases (f i == x)) [
    | inl t ↦ absurd (ground arith)
    | inr miss ↦ rw miss (ap (◌∷◌ (f i)) (without-miss n (i + 1) (rw miss at nothing)))
  ]

removed :
    (x : ℕ) (t : Timer) (k : ℕ)
    → k < t.callback_count
    → find_from (λ i. t.callbacks i == x) 0 t.callback_count ≡ some k
    → table (remove_at k t) ≡ without x (table t)
unfolding table remove_at
removed x t k lt found =
    let last = t.callback_count - 1 in
    let count : t.callback_count ≡ suc last = omega arith in
    without-hit t.callbacks (remove_at k t).callbacks x k last 0 (rw count at found) (λ j lo hi.
      rw (==_of_ne j last (λ e. omega arith))
        (shift_down_lem (last - k) k t.callbacks j ∙ ground arith))
    ∙ ap (λ n. without x (listing t.callbacks 0 n)) (sym count)

-- register_timer_callback puts the callback behind the registered ones when there are fewer than 16.
table-register :
    (f : ℕ) (t : Timer)
    → t.callback_count < 16
    → table (register_timer_callback f t).1 ≡ table t ++ f ∷ []
unfolding table register_timer_callback
table-register f t room =
    let n = t.callback_count in
    let room_left : leb 16 n ≡ false = ground arith in
    let more : n + 1 ≡ suc n = omega arith in
    let g = update t.callbacks n f in
    let kept =
      listing-congr g t.callbacks 0 0 n (λ d lt. rw (==_of_ne (0 + d) n (λ e. omega arith)) refl) in
    let last : 0 + n ≡ n = omega arith in
    let new : g (0 + n) ≡ f = rw (last, ==_refl n) refl in
    rw (room_left, more) (listing-snoc g 0 n ∙ ap₂ (λ l x. l ++ x ∷ []) kept new)

-- unregister_timer_callback takes the first place of the callback out of the list of registered callbacks
-- and keeps the order of the others; a callback that is not registered changes nothing.
pub table-unregister :
    (f : ℕ) (t : Timer) → table (unregister_timer_callback f t) ≡ without f (table t)
unfolding table unregister_timer_callback
table-unregister f t =
    elim (Option-cases (find_from (λ i. t.callbacks i == f) 0 t.callback_count)) [
      | inl nothing ↦
          rw (unregister_timer_callback, nothing)
            (sym (without-miss t.callbacks t.callbacks f t.callback_count 0 nothing))
      | inr (k, found) ↦
          let (_, lt, _, _) = find_from-some (λ i. t.callbacks i == f) 0 t.callback_count found in
          rw (unregister_timer_callback, found) (removed f t k (omega arith) found)
    ]
