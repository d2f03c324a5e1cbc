-- ===== src/Scheduler/Ring.antt =====
-- The circular list of processes of src/kernel/scheduler/scheduler.c.
pub mod Links
use dvivon_os.Scheduler.Ring.Links.{
  Distinct-drop, Chain-unlink, Distinct-right, NotIn-left, Chain-last, Chain-right, Distinct-before,
  Chain-left, NotIn-drop, next-ne, NotIn-snoc, Distinct-snoc, Chain-relink, follow-last, link,
  Chain-frame, Chain-snoc, Chain, NotIn, Distinct, link_self, last,
}
use dvivon_os.Base.{
  subst, length-append, true, ==_iff, Bool-cases, ◌+◌, ◌∙◌, sym, ==_of_ne, ◌<◌, ◌≤◌, false, length,
  refl, none, some, zero, suc, inl, inr, [], arith, ◌++◌, ◌==◌, ◌∷◌, if◌then◌else◌, ◌≡◌, ◌≢◌, List,
  ℕ,
}
use dvivon_os.Scheduler.{
  leave, follow, resume, set_next, freed, process_exit, switched, halted, scheduler_add_process,
  unlink, ExitOutcome, Sched,
}
use mathlib.Core.Bool.{false≢true}

-- The list that starts at `process_list` holds these processes, in this order, and leads back to its head.
pub record IsRing (s : Sched) (p : ℕ) (ps : List ℕ) : Type 0 where
  pub starts : s.process_list ≡ p
  pub chain : Chain s.process p ps p
  pub distinct : Distinct (p ∷ ps)
  pub non_null : NotIn 0 (p ∷ ps)

-- The processes of the scheduler, none if the list is empty.
abbrev pub Holds : Sched → List ℕ → Type 0
Holds s [] = s.process_list ≡ 0
Holds s (p ∷ ps) = IsRing s p ps

module _ (proc : ℕ) (s : Sched) where
  abbrev Adds : ℕ → List ℕ → Type 0
  Adds fuel ps =
      (s' : Sched) × (scheduler_add_process fuel proc s ≡ some s') × Holds s' (ps ++ proc ∷ [])

  add-empty : (fuel : ℕ) → s.process_list ≡ 0 → 0 ≢ proc → Adds fuel []
  unfolding scheduler_add_process
  add-empty fuel e nz = (
    set_next proc proc (record s { process_list = proc }),
    rw e refl,
    record {
      starts = refl;
      chain = link_self s.process proc proc;
      distinct = (tt, tt);
      non_null = (nz, tt);
    },
  )

  module _ (p : ℕ) (ps : List ℕ) (v : IsRing s p ps) (nz : 0 ≢ proc)
      (new : NotIn proc (p ∷ ps)) where
    abbrev linked : Sched
    linked = set_next proc s.process_list (set_next (last p ps) proc s)

    linked-IsRing : IsRing linked p (ps ++ proc ∷ [])
    linked-IsRing = record {
      starts = v.starts;
      chain =
          Chain-snoc linked.process p ps proc p
            (Chain-frame (link s.process (last p ps) proc) proc s.process_list p ps proc new
              (Chain-relink s.process proc p ps p v.distinct v.chain))
            (link_self (link s.process (last p ps) proc) proc s.process_list ∙ v.starts);
      distinct = Distinct-snoc proc (p ∷ ps) new v.distinct;
      non_null = NotIn-snoc 0 proc (p ∷ ps) v.non_null nz;
    }

    list_ne_zero : (s.process_list == 0) ≡ false
    list_ne_zero = rw v.starts (==_of_ne p 0 (λ e. v.non_null.0 (sym e)))

    found_last :
        (fuel : ℕ)
        → length ps < fuel
        → follow fuel s.process s.process_list s.process_list s.process_list ≡ some (last p ps)
    found_last fuel lt =
        rw v.starts
          (follow-last fuel s.process p p p ps p v.chain (inl refl) v.distinct.0 v.distinct.0 lt)

    add-more : (fuel : ℕ) → length ps < fuel → Adds fuel (p ∷ ps)
    unfolding scheduler_add_process
    add-more fuel lt = (linked, rw (list_ne_zero, found_last fuel lt) refl, linked-IsRing)

  -- scheduler_add_process ends and puts the process behind the last one of the ring, for a process that is
  -- not NULL and not in it, where the fuel is at least the number of processes; and a single process is
  -- its own successor.
  pub add-Holds :
      (fuel : ℕ) (ps : List ℕ)
      → Holds s ps
      → 0 ≢ proc
      → NotIn proc ps
      → length ps ≤ fuel
      → Adds fuel ps
  add-Holds fuel [] h nz new le = add-empty fuel h nz
  add-Holds fuel (p ∷ ps) h nz new le = add-more p ps h nz new fuel (omega arith)
