-- ===== src/Timer/Tests.antt =====
-- Three callbacks, one of them twice.
use dvivon_os.Timer.Handler.{handler-run_all, run_all, effect}
use dvivon_os.Timer.{timer_interrupt_handler, unregister_timer_callback, Timer}
use dvivon_os.Base.{arith, [], ◌∷◌, ◌==◌, ◌≡◌, if◌then◌else◌, some}
use dvivon_os.Timer.Table.{table-unregister, without, table}

abbrev four_callbacks : Timer
four_callbacks = record {
  system_ticks = 9;
  callbacks = λ i. if i == 0 then 70 else if i == 1 then 80 else if i == 2 then 90 else 80;
  callback_count = 4;
}

table-unregister_example :
    table (unregister_timer_callback 80 four_callbacks) ≡ without 80 (table four_callbacks)
table-unregister_example = table-unregister 80 four_callbacks

-- Each callback notes its name.
handler-run_all_example :
    timer_interrupt_handler (effect (λ f ticks w. f ∷ w)) (four_callbacks, [])
    ≡ some (
      record four_callbacks { system_ticks = 10 },
      run_all (λ f ticks w. f ∷ w) 10 (table four_callbacks) [],
    )
handler-run_all_example = handler-run_all (λ f ticks w. f ∷ w) four_callbacks [] (omega arith)
