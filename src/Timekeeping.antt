-- ===== src/Timekeeping.antt =====
-- init/time.c: the tick counter and what derives from it.
-- `cpu_halt` returns after an interrupt; a list says how many timer ticks each wake-up has seen.
mod Laws
mod Tests
use obsidian_kernel.Base.{
  ℕ, zero, suc, ◌+◌, ◌*◌, ◌/◌, ◌==◌, ltb, List, [], ◌∷◌, Option, none, some, if◌then◌else◌, u32,
  u64,
}

pub record Clock : Type 0 where
  pub ticks : ℕ
  pub tick_hz : ℕ

-- The variables before `time_init`.
abbrev pub boot_clock : Clock
boot_clock = record { ticks = 0; tick_hz = 100 }

pub time_init : ℕ → Clock → Clock
time_init hz c = record { ticks = 0; tick_hz = if hz == 0 then c.tick_hz else hz }

pub time_tick : Clock → Clock
time_tick c = record c { ticks = u64 (c.ticks + 1) }

pub uptime_ms : Clock → ℕ
uptime_ms c = u64 (c.ticks * 1000) / c.tick_hz

-- `n` timer interrupts.
pub time_ticks : ℕ → Clock → Clock
time_ticks zero c = c
time_ticks (suc n) c = time_ticks n (time_tick c)

-- `while (g_ticks < deadline) cpu_halt()`; `none` if it still waits after the last wake-up.
pub sleep_loop : ℕ → List ℕ → Clock → Option Clock
sleep_loop deadline [] c = if ltb c.ticks deadline then none else some c
sleep_loop deadline (n ∷ wakes) c =
    let rest = sleep_loop deadline wakes (time_ticks n c) in
    if ltb c.ticks deadline then rest else some c

pub sleep_ms : ℕ → List ℕ → Clock → Option Clock
sleep_ms ms wakes c = sleep_loop (u64 (c.ticks + u64 (u64 (ms * c.tick_hz) + 999) / 1000)) wakes c
