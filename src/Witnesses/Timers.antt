-- ===== src/Witnesses/Timers.antt =====
-- Runs of src/utility/time/TimedAttempt.cpp with the delays of a broker connection.
use arduino_io_tcloud.Common.{◌*◌, ◌≡◌, refl, arith}
use arduino_io_tcloud.TimedAttempt.{TimedAttempt, begin, retry}
use arduino_io_tcloud.TimedAttempt.Backoff.{retries, retries-delay, retries-delay-eq-zero}

abbrev timer : TimedAttempt
timer = record {
  min_delay = 1000;
  max_delay = 32000;
  retry_tick = 4_294_967_000;
  retry_delay = 4000;
  retry_count = 2;
}

third_delay : (retry 5 timer).retry_delay ≡ 8000
unfolding retry
third_delay = refl

retries-delay_example : (retries (λ n. 40000 * n) 4 (begin timer 1000 32000)).retry_delay ≡ 16000
retries-delay_example =
    retries-delay (λ n. 40000 * n) 3 1000 32000 timer (omega arith) (omega arith)

retries-delay-eq-zero_example :
    (retries (λ n. 40000 * n) 29 (begin timer 1000 32000)).retry_delay ≡ 0
retries-delay-eq-zero_example =
    retries-delay-eq-zero (λ n. 40000 * n) 28 125 32000 timer (omega arith) (omega arith)
