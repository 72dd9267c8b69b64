-- ===== src/Timekeeping/Tests.antt =====
-- The functions of init/time.c at concrete clocks.
use obsidian_kernel.Base.{◌≡◌, ◌-◌, ◌*◌, ◌≤◌, refl, [], ◌∷◌, some, arith}
use obsidian_kernel.Timekeeping.{Clock, time_init, time_tick, time_ticks, sleep_loop, sleep_ms}
use obsidian_kernel.Timekeeping.Laws.{sleep_ms-passed}

abbrev started : Clock
started = record { ticks = 7; tick_hz = 250 }

time_init_kept : (time_init 0 started).tick_hz ≡ 250
unfolding time_init
time_init_kept = refl

slept : sleep_ms 10 (1 ∷ 1 ∷ 1 ∷ 1 ∷ []) started ≡ some (record { ticks = 10; tick_hz = 250 })
unfolding sleep_ms sleep_loop time_ticks time_tick
slept = refl

sleep_ms-passed_example :
    (d : Clock) × (sleep_ms 10 (1 ∷ 1 ∷ 1 ∷ 1 ∷ []) started ≡ some d)
    × (10 * 250 ≤ (d.ticks - 7) * 1000)
sleep_ms-passed_example =
    sleep_ms-passed 10 (1 ∷ 1 ∷ 1 ∷ 1 ∷ []) started (omega arith) (omega arith) (omega arith)
