-- ===== src/Timekeeping/Laws.antt =====
-- What init/time.c's functions do as long as the 64-bit counters do not wrap.
use obsidian_kernel.Base.{
  ℕ, zero, suc, ◌+◌, ◌*◌, ◌/◌, ◌^◌, ◌≤◌, ◌<◌, ltb, List, [], ◌∷◌, some, ◌≡◌, refl, Bool-cases, inl,
  inr, ◌-◌, arith,
}
use native.Mathlib.Nat.{add-mul-div_left}
use obsidian_kernel.Timekeeping.{Clock, time_tick, uptime_ms, time_ticks, sleep_loop, sleep_ms}

pub ticks-time_ticks :
    (n : ℕ) (c : Clock) → c.ticks + n < 2 ^ 64 → (time_ticks n c).ticks ≡ c.ticks + n
unfolding time_ticks time_tick
ticks-time_ticks zero c h = omega arith
ticks-time_ticks (suc n) c h = omega (arith, ticks-time_ticks n (time_tick c) (omega arith))

pub tick_hz-time_ticks : (n : ℕ) (c : Clock) → (time_ticks n c).tick_hz ≡ c.tick_hz
unfolding time_ticks time_tick
tick_hz-time_ticks zero c = refl
tick_hz-time_ticks (suc n) c = tick_hz-time_ticks n (time_tick c)

-- One second of ticks, `tick_hz` of them, moves the uptime by 1000 ms exactly, if the counters do
-- not wrap.
pub uptime_ms-time_ticks :
    (c : Clock)
    → 0 < c.tick_hz
    → (c.ticks + c.tick_hz) * 1000 < 2 ^ 64
    → uptime_ms (time_ticks c.tick_hz c) ≡ uptime_ms c + 1000
unfolding uptime_ms
uptime_ms-time_ticks c r h = grind (
  arith,
  ticks-time_ticks c.tick_hz c (omega arith),
  tick_hz-time_ticks c.tick_hz c,
  add-mul-div_left (c.ticks * 1000) 1000 r,
)

-- The ticks that all the wake-ups of a list see.
abbrev pub total : List ℕ → ℕ
total [] = 0
total (n ∷ wakes) = n + total wakes

sleep_loop-passed :
    (deadline : ℕ) (wakes : List ℕ) (c : Clock)
    → c.ticks + total wakes < 2 ^ 64
    → deadline ≤ c.ticks + total wakes
    → (d : Clock) × (sleep_loop deadline wakes c ≡ some d) × (deadline ≤ d.ticks)
unfolding sleep_loop
sleep_loop-passed deadline [] c h e = (c, ground arith, omega arith)
sleep_loop-passed deadline (n ∷ wakes) c h e = elim (Bool-cases (ltb c.ticks deadline)) [
  | inl b ↦
      (let moved = ticks-time_ticks n c (omega arith) in
        let (d, r, p) =
          sleep_loop-passed deadline wakes (time_ticks n c) (omega (arith, moved))
            (omega (arith, moved)) in
        (d, ground (arith, r), p))
  | inr b ↦ (c, ground arith, ground arith)
]

-- If the wake-ups see enough ticks, and the counter and the sum do not wrap, `sleep_ms` returns,
-- and at least `ms` milliseconds of ticks have passed since the call.
pub sleep_ms-passed :
    (ms : ℕ) (wakes : List ℕ) (c : Clock)
    → c.ticks + total wakes < 2 ^ 64
    → ms * c.tick_hz + 999 < 2 ^ 64
    → ms * c.tick_hz ≤ total wakes * 1000
    → (d : Clock) × (sleep_ms ms wakes c ≡ some d) × (ms * c.tick_hz ≤ (d.ticks - c.ticks) * 1000)
unfolding sleep_ms
sleep_ms-passed ms wakes c h w e =
    let (d, r, p) =
      sleep_loop-passed (c.ticks + (ms * c.tick_hz + 999) / 1000) wakes c h (omega arith) in
    (d, grind (arith, r), omega arith)
