-- ===== src/Scheduler/Exit.antt =====
-- A process that leaves the ring: `process_exit` of src/kernel/scheduler/scheduler.c.
use dvivon_os.Scheduler.Ring.{Holds, IsRing}
use dvivon_os.Scheduler.Ring.Links.{
  Distinct-drop, Chain-unlink, Distinct-right, NotIn-left, Chain-last, Chain-right, Distinct-before,
  Chain-left, NotIn-drop, next-ne, Chain-relink, follow-last, link, Chain, last,
}
use dvivon_os.Base.{
  subst, length-append, true, ==_iff, Bool-cases, ◌+◌, ◌∙◌, sym, ==_of_ne, ◌<◌, ◌≤◌, false, length,
  refl, some, inl, inr, [], arith, ◌++◌, ◌==◌, ◌∷◌, ◌≡◌, ◌≢◌, List, ℕ,
}
use dvivon_os.Scheduler.{
  leave, follow, resume, freed, process_exit, switched, halted, unlink, ExitOutcome, Sched,
}
use mathlib.Core.Bool.{false≢true}

resume-Holds : (to : ℕ) (s : Sched) (ps : List ℕ) → Holds s ps → Holds (resume to s) ps
unfolding resume
resume-Holds to s [] h = h
resume-Holds to s (p ∷ ps) v = record {
  starts = v.starts;
  chain = v.chain;
  distinct = v.distinct;
  non_null = v.non_null;
}

module _ (proc : ℕ) (s : Sched) where
  -- The process is out of the ring; the processor runs the head of the list if it ran this process, and
  -- otherwise what it ran before.
  abbrev pub Leaves : List ℕ → ExitOutcome → Type 0
  Leaves ps (halted s') = ⊥
  Leaves ps (switched s') =
      Holds s' ps × (proc ≡ s.current_process) × (s'.current_process ≡ s'.process_list)
  Leaves ps (freed p s') =
      Holds s' ps
      × (p ≡ proc)
      × (proc ≢ s.current_process)
      × (s'.current_process ≡ s.current_process)

  abbrev pub Exits : ℕ → List ℕ → Type 0
  Exits fuel ps = (o : ExitOutcome) × (process_exit fuel proc s ≡ some o) × Leaves ps o

  leave-Leaves :
      (ps : List ℕ) (s₁ : Sched)
      → s₁.current_process ≡ s.current_process
      → Holds s₁ ps
      → Leaves ps (leave proc s₁)
  unfolding leave resume
  leave-Leaves ps s₁ same h = elim (Bool-cases (proc == s₁.current_process)) [
    | inl t ↦ rw t (resume-Holds s₁.process_list s₁ ps h, (==_iff _ _).0 t ∙ same, refl)
    | inr f ↦ rw f (h, refl, (λ e. false≢true (sym f ∙ (==_iff _ _).1 (e ∙ sym same))), same)
  ]

  unlink-current : (p : ℕ) → (unlink p proc s).current_process ≡ s.current_process
  unfolding unlink
  unlink-current p = elim (Bool-cases ((s.process p).next == proc)) [
    | inr f ↦ rw f refl
    | inl t ↦ elim (Bool-cases (s.process_list == proc)) [
      | inl u ↦ rw (t, u) refl
      | inr f ↦ rw (t, f) refl
    ]
  ]

  finish :
      (fuel p : ℕ) (ps : List ℕ)
      → (s.process proc).next ≢ proc
      → follow fuel s.process proc s.process_list s.process_list ≡ some p
      → Holds (unlink p proc s) ps
      → Exits fuel ps
  unfolding process_exit
  finish fuel p ps ne found h = (
    leave proc (unlink p proc s),
    rw (==_of_ne _ proc ne, found) refl,
    leave-Leaves ps (unlink p proc s) (unlink-current p) h,
  )

  -- The head leaves.
  module _ (q : ℕ) (rest : List ℕ) (v : IsRing s proc (q ∷ rest)) where
    abbrev end : ℕ
    end = last q rest

    head-found :
        (fuel : ℕ)
        → length rest + 1 < fuel
        → follow fuel s.process proc s.process_list s.process_list ≡ some end
    head-found fuel lt = rw v.starts (
        follow-last fuel s.process proc proc proc (q ∷ rest) proc v.chain (inl refl) v.distinct.0
          v.distinct.0 (omega arith))

    head-Holds : Holds (unlink end proc s) (q ∷ rest)
    unfolding unlink
    head-Holds =
        let points : ((s.process end).next == proc) ≡ true =
          (==_iff _ _).1 (Chain-last s.process q rest proc v.chain.1) in
        let is_head : (s.process_list == proc) ≡ true = (==_iff _ _).1 v.starts in
        rw (points, is_head)
          record {
            starts = v.chain.0;
            chain =
                subst (λ n. Chain (link s.process end n) q rest q) (sym v.chain.0)
                  (Chain-relink s.process q q rest proc v.distinct.1 v.chain.1);
            distinct = v.distinct.1;
            non_null = v.non_null.1;
          }

    head-exits : (fuel : ℕ) → length rest + 1 < fuel → Exits fuel (q ∷ rest)
    head-exits fuel lt =
        finish fuel end (q ∷ rest) (λ e. v.distinct.0.0 (sym e ∙ v.chain.0)) (head-found fuel lt)
          head-Holds

  -- Another process leaves.
  module _ (p : ℕ) (pre post : List ℕ) (v : IsRing s p (pre ++ proc ∷ post)) where
    abbrev before : ℕ
    before = last p pre

    head-ne : p ≢ proc
    head-ne = (NotIn-drop p proc pre post v.distinct.0).0

    inner-found :
        (fuel : ℕ)
        → length pre < fuel
        → follow fuel s.process proc s.process_list s.process_list ≡ some before
    inner-found fuel lt = rw v.starts (
        follow-last fuel s.process proc p p pre proc
          (Chain-left s.process p proc pre post p v.chain) (inl refl)
          (Distinct-before proc pre post v.distinct.1) (NotIn-left p pre (proc ∷ post) v.distinct.0)
          lt)

    inner-Holds : Holds (unlink before proc s) (p ∷ (pre ++ post))
    unfolding unlink
    inner-Holds =
        let points : ((s.process before).next == proc) ≡ true =
          (==_iff _ _).1
            (Chain-last s.process p pre proc (Chain-left s.process p proc pre post p v.chain)) in
        let not_head : (s.process_list == proc) ≡ false = rw v.starts (==_of_ne p proc head-ne) in
        rw (points, not_head)
          record {
            starts = v.starts;
            chain = Chain-unlink s.process p proc pre post p v.distinct v.chain;
            distinct = Distinct-drop proc (p ∷ pre) post v.distinct;
            non_null = (NotIn-drop 0 proc (p ∷ pre) post v.non_null).1;
          }

    inner-exits : (fuel : ℕ) → length pre < fuel → Exits fuel (p ∷ (pre ++ post))
    inner-exits fuel lt =
        let moves =
          next-ne s.process proc post p (Chain-right s.process p proc pre post p v.chain)
            (Distinct-right proc pre post v.distinct.1) (λ e. head-ne (sym e)) in
        finish fuel before (p ∷ (pre ++ post)) moves (inner-found fuel lt) inner-Holds

  -- process_exit of a process that is not the only one ends, with fuel for the processes of the ring, and
  -- takes it out of the ring, the others keeping their order. The current process makes way for the head
  -- of the list; another one is freed, and the processor keeps its process.
  pub exit-Leaves :
      (fuel : ℕ) (pre post : List ℕ)
      → Holds s (pre ++ proc ∷ post)
      → 0 < length (pre ++ post)
      → length (pre ++ proc ∷ post) ≤ fuel
      → Exits fuel (pre ++ post)
  exit-Leaves fuel [] [] h others le = absurd (omega arith)
  exit-Leaves fuel [] (q ∷ rest) h others le = head-exits q rest h fuel (omega arith)
  exit-Leaves fuel (p ∷ pre) post h others le =
      inner-exits p pre post h fuel (omega (arith, length-append pre (proc ∷ post)))
