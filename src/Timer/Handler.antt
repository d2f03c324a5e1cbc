-- ===== src/Timer/Handler.antt =====
-- The timer interrupt of src/kernel/time/time.c, for callbacks that leave the table of callbacks alone.
use dvivon_os.Base.{
  refl, Bool-cases, lt→ltb, true, ltb, [], arith, ltb_of_le, ◌==◌, ◌^◌, if◌then◌else◌, ◌%◌, ◌≡◌,
  ◌≤◌, ◌+◌, ◌∷◌, List, ℕ, some, zero, suc, inl, inr,
}
use dvivon_os.Timer.Table.{listing, table}
use dvivon_os.Timer.{Timer, call_from, timer_interrupt_handler}

module _ {W : Type 0} (act : ℕ → ℕ → W → W) where
  -- A callback that changes a state of its own.
  abbrev pub effect : ℕ → ℕ → Timer × W → Timer × W
  effect f ticks (t, w) = (t, act f ticks w)

  -- The callbacks of a list, one after the other, NULL left out.
  pub run_all : ℕ → List ℕ → W → W
  run_all ticks [] w = w
  run_all ticks (f ∷ fs) w =
      let done = run_all ticks fs (act f ticks w) in
      let skipped = run_all ticks fs w in if f == 0 then skipped else done

  call_from_lem :
      (fuel i n : ℕ) (t : Timer) (w : W)
      → i + n ≡ t.callback_count
      → n ≤ fuel
      → call_from effect fuel i (t, w)
        ≡ some (t, run_all t.system_ticks (listing t.callbacks i n) w)
  unfolding call_from run_all listing
  call_from_lem zero i zero t w e le = rw (ltb_of_le i t.callback_count (omega arith)) refl
  call_from_lem zero i (suc n) t w e le = absurd (omega arith)
  call_from_lem (suc fuel) i zero t w e le = rw (ltb_of_le i t.callback_count (omega arith)) refl
  call_from_lem (suc fuel) i (suc n) t w e le =
      let more : ltb i t.callback_count ≡ true = lt→ltb i t.callback_count (omega arith) in
      elim (Bool-cases (t.callbacks i == 0)) [
        | inl skip ↦ rw (more, skip) (call_from_lem fuel (i + 1) n t w (omega arith) (omega arith))
        | inr f ↦
            rw (more, f)
              (call_from_lem fuel (i + 1) n t (act (t.callbacks i) t.system_ticks w) (omega arith)
                (omega arith))
      ]

  abbrev ticked : Timer → Timer
  ticked t = record t { system_ticks = (t.system_ticks + 1) % 2 ^ 64 }

  -- With at most 16 callbacks in the table, each leaving the table alone, the timer interrupt ends: it
  -- counts the tick and calls every registered callback once, in the order of registration, with the
  -- new count.
  pub handler-run_all :
      (t : Timer) (w : W)
      → t.callback_count ≤ 16
      → timer_interrupt_handler effect (t, w)
        ≡ some (ticked t, run_all ((t.system_ticks + 1) % 2 ^ 64) (table t) w)
  unfolding timer_interrupt_handler table
  handler-run_all t w le = call_from_lem 16 0 t.callback_count (ticked t) w (omega arith) le
