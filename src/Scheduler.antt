-- ===== src/Scheduler.antt =====
-- src/kernel/scheduler/scheduler.c: the circular list of processes. A `process_t *` is a number, 0 for
-- NULL; the processes stand in the state, and so do the registers that a switch writes.
pub mod Ring
pub mod Exit
pub mod Turns
mod Tests
use dvivon_os.Base.{
  leb, true, false, ◌^◌, ◌||◌, Option, ◌%◌, ◌==◌, Bool, if◌then◌else◌, ℕ, ◌+◌, none, some, zero,
  suc,
}
use dvivon_os.Base.Buf.{update}

-- `process_t`
pub record Process : Type 0 where
  pub next : ℕ
  pub kernel_esp : ℕ
  pub kernel_stack_top : ℕ
  pub kernel_stack_base : ℕ
  pub pd_phys : ℕ

-- `scheduler_state`
pub data SchedState : Type 0 where
  state_off state_ready state_starting state_running : SchedState

-- The static variables, the processes, and the stack pointer, the stack of the task state segment and
-- the page directory of the processor.
pub record Sched : Type 0 where
  pub process : ℕ → Process
  pub process_list : ℕ
  pub current_process : ℕ
  pub current_process_ticks : ℕ
  pub state : SchedState
  pub esp : ℕ
  pub tss_esp0 : ℕ
  pub cr3 : ℕ

abbrev pub process_max_ticks : ℕ
process_max_ticks = 1

-- `proc->next = n`
abbrev pub set_next : ℕ → ℕ → Sched → Sched
set_next p n s = record s { process = update s.process p (record (s.process p) { next = n }) }

-- `tss_set_stack`, `vmm_switch_address_space` and the loading half of `switch_to_stack`.
unfoldable pub resume : ℕ → Sched → Sched
resume to s = record s {
  current_process = to;
  tss_esp0 = (s.process to).kernel_stack_top;
  cr3 = (s.process to).pd_phys;
  esp = (s.process to).kernel_esp;
}

-- `context_switch`: `to->kernel_esp` is an argument of `switch_to_stack`, read before the old stack
-- pointer is stored.
unfoldable pub context_switch : (from to : ℕ) → Sched → Sched
context_switch from to s =
    let saved = record (s.process from) { kernel_esp = s.esp } in
    let to_esp = (s.process to).kernel_esp in
    record (resume to s) { process = update s.process from saved; esp = to_esp }

-- A tick of the running scheduler.
unfoldable pub tick : Sched → Sched
tick s =
    let ticks = (s.current_process_ticks + 1) % 2 ^ 32 in
    let s₁ = record s { current_process_ticks = 0 } in
    let next = (s.process s.current_process).next in
    let next_proc = if next == 0 then s.process_list else next in
    if leb process_max_ticks ticks
    then context_switch s.current_process next_proc s₁
    else record s { current_process_ticks = ticks }

-- `schedule`, by the state.
unfoldable pub schedule_in : SchedState → Sched → Sched
schedule_in state_starting s = resume s.current_process (record s { state = state_running })
schedule_in state_running s = if s.current_process == 0 then s else tick s
schedule_in state_off s = s
schedule_in state_ready s = s

-- `schedule`
unfoldable pub schedule : Sched → Sched
schedule s = schedule_in s.state s

-- `while (p->next != stop1 && p->next != stop2) p = p->next;`, with fuel; none when it runs out.
unfoldable pub follow : (fuel : ℕ) → (ℕ → Process) → (stop₁ stop₂ p : ℕ) → Option ℕ
follow zero process stop₁ stop₂ p = none
follow (suc fuel) process stop₁ stop₂ p =
    let next = (process p).next in
    let rest = follow fuel process stop₁ stop₂ next in
    if (next == stop₁) || (next == stop₂) then some p else rest

-- `scheduler_add_process`; the fuel bounds the number of processes.
unfoldable pub scheduler_add_process : (fuel : ℕ) → (proc : ℕ) → Sched → Option Sched
scheduler_add_process fuel proc s =
    if s.process_list == 0
    then some (set_next proc proc (record s { process_list = proc }))
    else elim (follow fuel s.process s.process_list s.process_list s.process_list) [
      | none ↦ none
      | some last ↦ some (set_next proc s.process_list (set_next last proc s))
    ]

-- `scheduler_start` with `scheduler_init`, up to the loop that waits for the first interrupt; false when
-- there is no process.
unfoldable pub scheduler_start : Sched → Bool × Sched
scheduler_start s = if s.process_list == 0 then (false, s) else (
  true,
  record s {
    current_process = s.process_list;
    state = state_starting;
    cr3 = (s.process s.process_list).pd_phys;
  },
)

-- What `process_exit` ends in: the machine halted, another process resumed, or the return to the caller
-- after the process is freed.
pub data ExitOutcome : Type 0 where
  halted : Sched → ExitOutcome
  switched : Sched → ExitOutcome
  freed : (proc : ℕ) → Sched → ExitOutcome

-- The process taken out of the list behind p.
unfoldable pub unlink : (p proc : ℕ) → Sched → Sched
unlink p proc s =
    let after = (s.process proc).next in
    let s₁ = set_next p after s in
    if (s.process p).next == proc
    then (if s.process_list == proc then record s₁ { process_list = after } else s₁)
    else s

-- What `process_exit` does once the process is out of the list.
unfoldable pub leave : (proc : ℕ) → Sched → ExitOutcome
leave proc s =
    if proc == s.current_process then switched (resume s.process_list s) else freed proc s

-- `process_exit`
unfoldable pub process_exit : (fuel : ℕ) → (proc : ℕ) → Sched → Option ExitOutcome
process_exit fuel proc s =
    if (s.process proc).next == proc
    then some (halted s)
    else elim (follow fuel s.process proc s.process_list s.process_list) [
      | none ↦ none
      | some p ↦ some (leave proc (unlink p proc s))
    ]

-- `get_current_process`
abbrev pub get_current_process : Sched → ℕ
get_current_process s = s.current_process
