-- ===== src/Base/Search.antt =====
-- The loop `for (k = i; k < i + n; k++) if (p(k)) return k;`.
use mathlib.Core.Bool.{false≢true, ◌&&◌, Bool, true, false}
use dvivon_os.Base.Tests.{==_iff, Bool-cases, ◌==◌, if◌then◌else◌}
use mathlib.Core.Path.{refl, sym, subst, ◌≡◌}
use mathlib.Core.Logic.{inl, inr}
use Prim.Native.Nat.{ℕ, zero, suc, ◌+◌, ◌≤◌, ◌<◌}
use mathlib.Core.Option.{Option, none, some}
use native.Mathlib.Decide.{dec_lt}
use native.Mathlib.Omega.{arith}

module _ (p : ℕ → Bool) where
  unfoldable pub find_from : ℕ → ℕ → Option ℕ
  find_from i zero = none
  find_from i (suc n) = let rest = find_from (i + 1) n in if p i then some i else rest

  -- The result is the least index of the range that passes.
  pub find_from-some :
      (i n : ℕ) {k : ℕ}
      → find_from i n ≡ some k
      → (i ≤ k) × (k < i + n) × (p k ≡ true) × ((j : ℕ) → i ≤ j → j < k → p j ≡ false)
  unfolding find_from
  find_from-some i zero h = ground arith
  find_from-some i (suc n) {k} h = elim (Bool-cases (p i)) [
    | inl hit ↦ (ground arith, ground arith, ground arith, λ j lo hi. ground arith)
    | inr miss ↦
        let later = find_from-some (i + 1) n (rw miss at h) in
        (
          ground (arith, later),
          ground (arith, later),
          later.2,
          λ j lo hi. elim (dec_lt i j) [
            | yes lt ↦ later.3 j (omega arith) hi
            | no ge ↦ let e : j ≡ i = omega arith in rw e miss
          ],
        )
  ]

  -- No result means that nothing in the range passes.
  pub find_from-none : (i n : ℕ) → find_from i n ≡ none → (k : ℕ) → i ≤ k → k < i + n → p k ≡ false
  unfolding find_from
  find_from-none i zero h k lo hi = absurd (omega arith)
  find_from-none i (suc n) h k lo hi = elim (Bool-cases (p i)) [
    | inl hit ↦ absurd (ground arith)
    | inr miss ↦ elim (dec_lt i k) [
      | yes lt ↦ find_from-none (i + 1) n (rw miss at h) k (omega arith) (omega arith)
      | no ge ↦ let e : k ≡ i = omega arith in rw e miss
    ]
  ]

pub and_true : (a b : Bool) → (a && b) ≡ true → (a ≡ true) × (b ≡ true)
and_true true b h = (refl, h)
and_true false b h = absurd (false≢true h)

-- A test that holds below a bound, checked by running it.
unfoldable pub all_below : (ℕ → Bool) → ℕ → Bool
all_below f zero = true
all_below f (suc n) = f n && all_below f n

pub all_below-holds : (f : ℕ → Bool) (n i : ℕ) → all_below f n ≡ true → i < n → f i ≡ true
unfolding all_below
all_below-holds f zero i h lt = absurd (omega arith)
all_below-holds f (suc n) i h lt =
    let (here, below) = and_true (f n) (all_below f n) h in
    elim (Bool-cases (i == n)) [
      | inl e ↦ subst (λ j. f j ≡ true) (sym ((==_iff i n).0 e)) here
      | inr ne ↦ all_below-holds f n i below (ground arith)
    ]
