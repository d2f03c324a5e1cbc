-- ===== src/Scheduler/Tests.antt =====
-- A ring of the processes 10, 20 and 30, of which 10 runs.
use dvivon_os.Scheduler.{state_running, process_exit, scheduler_add_process, ExitOutcome, Sched}
use dvivon_os.Scheduler.Ring.{add-Holds, Holds, IsRing}
use dvivon_os.Scheduler.Exit.{exit-Leaves, Leaves}
use dvivon_os.Base.{◌+◌, arith, ◌==◌, ◌≡◌, [], if◌then◌else◌, refl, ◌∷◌, some}
use dvivon_os.Scheduler.Ring.Links.{NotIn}

abbrev three : Sched
three = record {
  process = λ p. record {
    next = if p == 10 then 20 else if p == 20 then 30 else if p == 30 then 10 else 0;
    kernel_esp = p + 1;
    kernel_stack_top = p + 2;
    kernel_stack_base = p + 3;
    pd_phys = p + 4;
  };
  process_list = 10;
  current_process = 10;
  current_process_ticks = 0;
  state = state_running;
  esp = 5;
  tss_esp0 = 12;
  cr3 = 14;
}

three-IsRing : IsRing three 10 (20 ∷ 30 ∷ [])
three-IsRing = record {
  starts = refl;
  chain = (refl, (refl, refl));
  distinct = (((λ e. omega arith), ((λ e. omega arith), tt)), (((λ e. omega arith), tt), (tt, tt)));
  non_null = ((λ e. omega arith), ((λ e. omega arith), ((λ e. omega arith), tt)));
}

is_new : NotIn 40 (10 ∷ 20 ∷ 30 ∷ [])
is_new = ((λ e. omega arith), ((λ e. omega arith), ((λ e. omega arith), tt)))

add-Holds_example :
    (s' : Sched) × (scheduler_add_process 3 40 three ≡ some s') × Holds s' (10 ∷ 20 ∷ 30 ∷ 40 ∷ [])
add-Holds_example =
    add-Holds 40 three 3 (10 ∷ 20 ∷ 30 ∷ []) three-IsRing (λ e. omega arith) is_new (omega arith)

-- The current process, which is the head of the list, leaves.
exit-Leaves_example :
    (o : ExitOutcome) × (process_exit 3 10 three ≡ some o) × Leaves 10 three (20 ∷ 30 ∷ []) o
exit-Leaves_example =
    exit-Leaves 10 three 3 [] (20 ∷ 30 ∷ []) three-IsRing (omega arith) (omega arith)
