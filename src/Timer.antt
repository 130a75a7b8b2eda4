-- ===== src/Timer.antt =====
-- HtcLeoPkg/Library/GPTTimerLib/GPTTimerLib.c: times from the 32-bit counter of the general purpose timer.
pub mod Delay
use htc_leo_pkg.Base.{
  ℕ, zero, suc, ◌+◌, ◌-◌, ◌*◌, ◌/◌, ◌%◌, ◌^◌, ◌<◌, ◌≤◌, ◌≡◌, arith, ◌==◌, if◌then◌else◌, Option,
  none, some, ltb, leb, ◌&&◌,
}

-- The result of `GetPerformanceCounterProperties`
abbrev pub frequency : ℕ
frequency = 32765

-- `GetTimeInNanoSecond`
unfoldable pub get_time_in_nanosecond : ℕ → ℕ
get_time_in_nanosecond ticks =
    (((ticks / frequency) * 1000000000) % 2 ^ 64
      + (((ticks % frequency) * 1000000000) % 2 ^ 64) / frequency)
    % 2 ^ 64

-- `NanoSecondDelay`: the microseconds that it waits.
unfoldable pub nano_second_delay : ℕ → ℕ
nano_second_delay nano_seconds = nano_seconds / 1000 + (if nano_seconds % 1000 == 0 then 0 else 1)

-- The ticks that `MicroSecondDelay` waits.
unfoldable pub micro_second_ticks : ℕ → ℕ
micro_second_ticks micro_seconds = (micro_seconds * 33 + 1000 - 33) / 1000

-- The first loop of `MicroSecondDelay`, which waits for the counter to wrap: the number of the reading
-- that ends it. `read k` is what the counter register gives at the k-th time.
unfoldable pub wait_wrap : ℕ → (ℕ → ℕ) → ℕ → ℕ → ℕ → Option ℕ
wait_wrap zero read timeout init k = none
wait_wrap (suc f) read timeout init k =
    let later = wait_wrap f read timeout init (k + 1) in
    if ltb timeout (read k) && leb init (read k) then later else some k

-- The second loop, which waits for the ticks.
unfoldable pub wait_ticks : ℕ → (ℕ → ℕ) → ℕ → ℕ → Option ℕ
wait_ticks zero read timeout k = none
wait_ticks (suc f) read timeout k =
    let later = wait_ticks f read timeout (k + 1) in if ltb (read k) timeout then later else some k

-- `MicroSecondDelay`: the number of the reading at which it returns, each loop with its own fuel.
unfoldable pub micro_second_delay : ℕ → (ℕ → ℕ) → ℕ → Option ℕ
unfolding wait_wrap wait_ticks micro_second_ticks
micro_second_delay f read micro_seconds =
    let timeout = (read 0 + micro_second_ticks micro_seconds) % 2 ^ 32 in
    elim (wait_wrap f read timeout (read 0) 0) [
      | none ↦ none
      | some k ↦ wait_ticks f read timeout k
    ]

-- For every number of ticks of the 32-bit counter, `GetTimeInNanoSecond` is the exact quotient
-- ticks * 10^9 / frequency, rounded down: splitting off the remainder loses nothing and no step overflows.
pub get_time_in_nanosecond_lem :
    (t : ℕ) → t < 2 ^ 32 → get_time_in_nanosecond t ≡ (t * 1000000000) / 32765
unfolding get_time_in_nanosecond
get_time_in_nanosecond_lem t h = omega arith

-- A delay of n nanoseconds waits a number of ticks t at 33 ticks in 1000 microseconds that is within
-- one tick of the time: 33n < 10^6 t + 33000, and 10^6 t ≤ 33n + 10^6.
pub nano_second_delay_lem :
    (n : ℕ)
    → let t = micro_second_ticks (nano_second_delay n) in
      (33 * n < 1000000 * t + 33000) × (1000000 * t ≤ 33 * n + 1000000)
unfolding micro_second_ticks nano_second_delay
nano_second_delay_lem n = ground arith
