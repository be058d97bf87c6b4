-- ===== src/TimedAttempt.antt =====
-- src/utility/time/TimedAttempt.{h,cpp}: a retry timer with exponential back-off. `millis()` is an
-- argument `now`; `unsigned long` and `unsigned int` have 32 bits and wrap.
pub mod Backoff
use arduino_io_tcloud.Common.{ℕ, ◌+◌, ◌-◌, ◌*◌, ◌%◌, ◌^◌, Bool, ltb, if◌then◌else◌, min, u32_mod}

pub record TimedAttempt : Type 0 where
  pub min_delay : ℕ
  pub max_delay : ℕ
  pub retry_tick : ℕ
  pub retry_delay : ℕ
  pub retry_count : ℕ

-- `begin(minDelay, maxDelay)`.
unfoldable pub begin : TimedAttempt → ℕ → ℕ → TimedAttempt
begin a lo hi = record {
  min_delay = lo;
  max_delay = hi;
  retry_tick = 0;
  retry_delay = 0;
  retry_count = 0;
}

-- `begin(delay)`.
unfoldable pub begin_fixed : TimedAttempt → ℕ → TimedAttempt
begin_fixed a delay = record {
  min_delay = delay;
  max_delay = delay;
  retry_tick = 0;
  retry_delay = 0;
  retry_count = 0;
}

unfoldable pub reload : ℕ → TimedAttempt → TimedAttempt
reload now a =
    let shift = if ltb 31 a.retry_count then 31 else a.retry_count in
    let delay = 2 ^ shift * a.min_delay % u32_mod in
    record a { retry_delay = min delay a.max_delay; retry_tick = now }

unfoldable pub reconfigure : ℕ → TimedAttempt → ℕ → ℕ → TimedAttempt
unfolding reload
reconfigure now a lo hi = reload now (record a { min_delay = lo; max_delay = hi })

unfoldable pub retry : ℕ → TimedAttempt → TimedAttempt
unfolding reload
retry now a = reload now (record a { retry_count = (a.retry_count + 1) % u32_mod })

unfoldable pub reset : TimedAttempt → TimedAttempt
reset a = record a { retry_count = 0 }

unfoldable pub is_retry : TimedAttempt → Bool
is_retry a = ltb 0 a.retry_count

unfoldable pub is_expired : ℕ → TimedAttempt → Bool
is_expired now a = ltb a.retry_delay ((now + u32_mod - a.retry_tick) % u32_mod)
