-- ===== src/TimeService/Clock.antt =====
-- The clock of src/utility/time/RTCMillis.cpp keeps the time however often it is read.
use arduino_io_tcloud.Common.{ℕ, ◌+◌, ◌-◌, ◌*◌, ◌/◌, ◌%◌, ◌<◌, ◌≡◌, List, [], ◌∷◌, u32_mod, arith}
use arduino_io_tcloud.TimeService.{RtcMillis, set_rtc, get_rtc}

-- The time that has passed when a clock was read last, for readings with the waits `ds` in between.
abbrev pub total : ℕ → List ℕ → ℕ
total t [] = t
total t (d ∷ ds) = total (t + d) ds

-- The clock after readings `ds` ms apart, the first of them `t` ms after the clock was set at
-- `start`; `millis()` wraps.
unfoldable pub readings : ℕ → ℕ → List ℕ → RtcMillis → RtcMillis
readings start t [] r = r
readings start t (d ∷ ds) r = readings start (t + d) ds (get_rtc ((start + (t + d)) % u32_mod) r).1

-- The clock holds the whole seconds of `t` ms.
pub record Keeps (start time t : ℕ) (r : RtcMillis) : Type 0 where
  pub tick : r.last_rtc_update_tick ≡ (start + t / 1000 * 1000) % u32_mod
  pub value : r.last_rtc_update_value ≡ (time + t / 1000) % u32_mod

-- The waits are shorter than the range of `millis()`, less a second.
abbrev pub AreShort : List ℕ → Type 0
AreShort [] = Unit {0}
AreShort (d ∷ ds) = (d < u32_mod - 1000) × AreShort ds

elapsed_seconds :
    (start t d : ℕ)
    → d < u32_mod - 1000
    → ((start + (t + d)) % u32_mod + u32_mod - (start + t / 1000 * 1000) % u32_mod) % u32_mod / 1000
      ≡ (t + d) / 1000 - t / 1000
elapsed_seconds start t d h = omega arith

-- The last wait.
get_rtc-value :
    (start time t d : ℕ) (r : RtcMillis)
    → d < u32_mod - 1000
    → Keeps start time t r
    → (get_rtc ((start + (t + d)) % u32_mod) r).0 ≡ (time + (t + d) / 1000) % u32_mod
unfolding get_rtc
get_rtc-value start time t d r h k = rw (k.tick, k.value, elapsed_seconds start t d h) (omega arith)

get_rtc-Keeps :
    (start time t d : ℕ) (r : RtcMillis)
    → d < u32_mod - 1000
    → Keeps start time t r
    → Keeps start time (t + d) (get_rtc ((start + (t + d)) % u32_mod) r).1
unfolding get_rtc
get_rtc-Keeps start time t d r h k = record {
  tick = rw (k.tick, elapsed_seconds start t d h) (omega arith);
  value = get_rtc-value start time t d r h k;
}

readings-Keeps :
    (start time t : ℕ) (ds : List ℕ) (r : RtcMillis)
    → AreShort ds
    → Keeps start time t r
    → Keeps start time (total t ds) (readings start t ds r)
unfolding readings
readings-Keeps start time t [] r h k = k
readings-Keeps start time t (d ∷ ds) r h k =
    readings-Keeps start time (t + d) ds _ h.1 (get_rtc-Keeps start time t d r h.0 k)

-- A clock that was set to a time, and read any number of times since, at most 49 days apart, shows
-- that time and the whole seconds that have passed: the readings lose nothing.
pub get_rtc-readings :
    (start time d : ℕ) (ds : List ℕ) (r : RtcMillis)
    → AreShort ds
    → d < u32_mod - 1000
    → (get_rtc
        ((start + (total 0 ds + d)) % u32_mod)
        (readings start 0 ds (set_rtc (start % u32_mod) (time % u32_mod) r))).0
      ≡ (time + (total 0 ds + d) / 1000) % u32_mod
unfolding set_rtc
get_rtc-readings start time d ds r h k =
    get_rtc-value start time (total 0 ds) d _ k
      (readings-Keeps start time 0 ds _ h (record { tick = omega arith; value = omega arith }))
