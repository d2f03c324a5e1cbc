-- ===== src/Scheduler/Turns.antt =====
-- The timer ticks of src/kernel/scheduler/scheduler.c, one after the other.
use dvivon_os.Base.{false, get_or, ◌==◌, [], length, ◌∷◌, ◌≡◌, ◌<◌, List, ℕ, zero, suc}
use dvivon_os.Scheduler.{state_running, schedule, Sched}

-- The scheduler is running a process, with no tick counted yet.
pub record Runs (s : Sched) (a : ℕ) : Type 0 where
  pub running : s.state ≡ state_running
  pub current : s.current_process ≡ a
  pub fresh : s.current_process_ticks ≡ 0

-- No process but a has changed, and a in its saved stack pointer alone.
abbrev SameBut : ℕ → Sched → Sched → Type 0
SameBut a s s' =
    ((q : ℕ) → (q == a) ≡ false → s'.process q ≡ s.process q)
    × (s'.process a ≡ record (s.process a) { kernel_esp = s.esp })

-- The processor is handed to process q of s, whose stack pointer is esp: it runs on the kernel stack and
-- in the address space of q.
pub record Resumed (s : Sched) (q esp : ℕ) (s' : Sched) : Type 0 where
  pub current : s'.current_process ≡ q
  pub stack : s'.tss_esp0 ≡ (s.process q).kernel_stack_top
  pub space : s'.cr3 ≡ (s.process q).pd_phys
  pub pointer : s'.esp ≡ esp

-- The scheduler after some ticks.
pub turns : ℕ → Sched → Sched
turns zero s = s
turns (suc n) s = turns n (schedule s)

-- The processes xs, one after the other, each with the stack pointer that it has in s, and then z.
abbrev InTurn : Sched → List ℕ → ℕ → Type 0
InTurn s xs z =
    ((k : ℕ)
      → k < length xs
      → Resumed s (get_or xs k 0) (s.process (get_or xs k 0)).kernel_esp (turns (suc k) s))
    × Resumed s z (s.process z).kernel_esp (turns (suc (length xs)) s)

-- The stack pointer with which the head runs again: the one that its first tick saved, or, when it is
-- alone, the one that was saved before that.
abbrev pub head_esp : Sched → ℕ → List ℕ → ℕ
head_esp s p [] = (s.process p).kernel_esp
head_esp s p (x ∷ xs) = s.esp
