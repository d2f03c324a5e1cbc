-- ===== src/Timer.antt =====
-- src/kernel/time/time.c: the tick counter and the table of timer callbacks, function pointers as
-- numbers, 0 for NULL.
pub mod Table
pub mod Handler
mod Tests
use dvivon_os.Base.{
  not, ◌^◌, leb, ltb, ◌%◌, ◌==◌, Option, if◌then◌else◌, ◌+◌, ◌-◌, ℕ, none, some, zero, suc,
}
use dvivon_os.Base.Buf.{update}
use dvivon_os.Base.Search.{find_from}

pub record Timer : Type 0 where
  pub system_ticks : ℕ
  pub callbacks : ℕ → ℕ
  pub callback_count : ℕ

abbrev pub max_timer_callbacks : ℕ
max_timer_callbacks = 16

-- `register_timer_callback`
unfoldable pub register_timer_callback : ℕ → Timer → ℕ × Timer
register_timer_callback f t = if leb max_timer_callbacks t.callback_count then (1, t) else (
  0,
  record t {
    callbacks = update t.callbacks t.callback_count f;
    callback_count = t.callback_count + 1;
  },
)

-- `for (j = i; j < i + n; j++) callbacks[j] = callbacks[j + 1];`
unfoldable pub shift_down : (n i : ℕ) → (ℕ → ℕ) → ℕ → ℕ
shift_down zero i f = f
shift_down (suc n) i f = shift_down n (i + 1) (update f i (f (i + 1)))

-- The callback at an index taken out.
unfoldable pub remove_at : ℕ → Timer → Timer
remove_at i t =
    let last = t.callback_count - 1 in
    record t {
      callbacks = update (shift_down (last - i) i t.callbacks) last 0;
      callback_count = last;
    }

-- `unregister_timer_callback`
unfoldable pub unregister_timer_callback : ℕ → Timer → Timer
unregister_timer_callback f t = elim (find_from (λ i. t.callbacks i == f) 0 t.callback_count) [
  | none ↦ t
  | some i ↦ remove_at i t
]

-- What the callbacks do, with the tick count, to the timer and to a state of their own.
module _ {W : Type 0} (call : ℕ → ℕ → Timer × W → Timer × W) where
  -- The loop of `timer_interrupt_handler` from an index on, with fuel; none when it runs out.
  unfoldable pub call_from : ℕ → ℕ → Timer × W → Option (Timer × W)
  call_from zero i (t, w) = if ltb i t.callback_count then none else some (t, w)
  call_from (suc fuel) i (t, w) =
      let f = t.callbacks i in
      let called = call_from fuel (i + 1) (call f t.system_ticks (t, w)) in
      let skipped = call_from fuel (i + 1) (t, w) in
      if not (ltb i t.callback_count) then some (t, w) else if f == 0 then skipped else called

  -- `timer_interrupt_handler`
  unfoldable pub timer_interrupt_handler : Timer × W → Option (Timer × W)
  timer_interrupt_handler (t, w) =
      call_from max_timer_callbacks 0 (record t { system_ticks = (t.system_ticks + 1) % 2 ^ 64 }, w)
