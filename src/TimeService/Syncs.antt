-- ===== src/TimeService/Syncs.antt =====
-- What `getTime` and `getLocalTime` of src/utility/time/TimeService.cpp return, by what the sources of
-- the time answered.
use arduino_io_tcloud.Common.{
  ℕ, ◌+◌, ◌-◌, ◌/◌, ◌%◌, ◌≤◌, ◌<◌, ◌≡◌, ◌⊎◌, inl, refl, ap, ◌∙◌, Bool, true, false, not, ◌||◌,
  nonzero, if◌then◌else◌, if_both, if-ap, ◌&&◌, ℤ, int_eq, ◌==◌, u32_mod, arith,
}
use arduino_io_tcloud.TimeService.{
  TimeService, Sources, get_rtc, set_rtc, set_time, sync, source_time, is_time_valid, is_sync_due,
  get_time, read_rtc, set_time_zone_data, is_time_zone_offset_valid,
}

-- The state after a synchronisation.
abbrev pub synced : Sources → TimeService → TimeService
synced w s = record (set_time w.tick_after (source_time w s) s) {
  last_sync_tick = w.tick_after;
  is_rtc_configured = true;
}

sync-synced :
    (w : Sources) (s : TimeService)
    → is_time_valid w.compile_time (source_time w s) ≡ true
    → sync w s ≡ (true, synced w s)
unfolding sync
sync-synced w s h = rw h

get_time-current :
    (w : Sources) (s : TimeService)
    → is_sync_due w s ≡ false
    → nonzero s.last_sync_tick ≡ true
    → (get_time w s).0 ≡ (get_rtc w.tick_after s.rtc).0
unfolding get_time
get_time-current w s h k = rw h (ap (λ b. (if b then read_rtc w s else (w.compile_time, s)).0) k)

not_due :
    (w w' : Sources) (s : TimeService) (d : ℕ)
    → w.tick_after < u32_mod
    → d ≤ s.sync_interval_ms
    → d < u32_mod
    → w'.tick ≡ (w.tick_after + d) % u32_mod
    → is_sync_due w' (synced w s) ≡ false
unfolding is_sync_due set_time
not_due w w' s d u i j e = ground arith

since_sync :
    (t tick tick' time d : ℕ)
    → t < u32_mod
    → d < u32_mod
    → tick ≡ (t + d) % u32_mod
    → tick' ≡ tick
    → (time + (tick' + u32_mod - t) % u32_mod / 1000) % u32_mod ≡ (time + d / 1000) % u32_mod
since_sync t tick tick' time d u i e e' =
    let h : (tick' + u32_mod - t) % u32_mod ≡ d = omega arith in rw h

-- A synchronisation that gets a valid time, at a tick other than 0, is good for an interval: until
-- then `getTime` gives that time and the whole seconds since, whatever the sources would answer.
pub get_time-synced :
    (w w' : Sources) (s : TimeService) (d : ℕ)
    → is_time_valid w.compile_time (source_time w s) ≡ true
    → 0 < w.tick_after
    → w.tick_after < u32_mod
    → d ≤ s.sync_interval_ms
    → d < u32_mod
    → w'.tick ≡ (w.tick_after + d) % u32_mod
    → w'.tick_after ≡ w'.tick
    → (get_time w' (sync w s).1).0 ≡ (source_time w s + d / 1000) % u32_mod
unfolding set_time set_rtc get_rtc
get_time-synced w w' s d v t u i j e e' =
    ap (λ (r : Bool × TimeService). (get_time w' r.1).0) (sync-synced w s v)
    ∙ get_time-current w' (synced w s) (not_due w w' s d u i j e) (ground arith)
    ∙ since_sync w.tick_after w'.tick w'.tick_after (source_time w s) d u j e e'

-- The state after a synchronisation that got no valid time.
abbrev unsynced : TimeService → TimeService
unsynced s = record s { is_rtc_configured = false }

get_time-unsynced :
    (w : Sources) (s : TimeService)
    → is_sync_due w s ≡ true
    → is_time_valid w.compile_time (source_time w s) ≡ false
    → get_time w s
      ≡ (if nonzero s.last_sync_tick then read_rtc w (unsynced s) else (w.compile_time, unsynced s))
unfolding get_time sync
get_time-unsynced w s h k = rw (h, k)

is_sync_due-unsynced :
    (w w' : Sources) (s : TimeService)
    → (b : Bool)
    → is_sync_due w' (if b then read_rtc w (unsynced s) else (w.compile_time, unsynced s)).1 ≡ true
unfolding is_sync_due
is_sync_due-unsynced w w' s true = refl
is_sync_due-unsynced w w' s false = refl

-- Where no source has a valid time, `getTime` falls back on the clock if it was ever set by a
-- synchronisation, and on the date of the build otherwise, and the next call asks the sources again.
pub get_time-fallback :
    (w w' : Sources) (s : TimeService)
    → is_sync_due w s ≡ true
    → is_time_valid w.compile_time (source_time w s) ≡ false
    → ((get_time w s).0
        ≡ (if nonzero s.last_sync_tick then (get_rtc w.tick_after s.rtc).0 else w.compile_time))
      × (is_sync_due w' (get_time w s).1 ≡ true)
get_time-fallback w w' s h k =
    let e = get_time-unsynced w s h k in
    let b = nonzero s.last_sync_tick in
    (
      ap (λ (r : ℕ × TimeService). r.0) e
          ∙ if-ap (λ (r : ℕ × TimeService). r.0) b (read_rtc w (unsynced s))
              (w.compile_time, unsynced s),
      ap (λ (r : ℕ × TimeService). is_sync_due w' r.1) e ∙ is_sync_due-unsynced w w' s b,
    )

-- Data that say that no timezone was set hold no valid offset.
abbrev pub IsConsistent : TimeService → Type 0
IsConsistent s = (s.is_tz_configured ≡ true) ⊎ (s.timezone_offset ≡ ℤ.pos 86400)

abbrev with_zone : ℤ → ℕ → TimeService → TimeService
with_zone offset until s = record s {
  timezone_offset = offset;
  timezone_dst_until = until;
  is_tz_configured = true;
}

-- `setTimeZoneData` never makes the data inconsistent.
pub set_time_zone_data-IsConsistent :
    (compile_time until : ℕ) (offset : ℤ) (s : TimeService)
    → IsConsistent s
    → IsConsistent (set_time_zone_data compile_time offset until s)
unfolding set_time_zone_data
set_time_zone_data-IsConsistent compile_time until offset s h =
    if_both IsConsistent (is_time_zone_offset_valid offset && is_time_valid compile_time until) _ s
      (if_both IsConsistent
        (not (int_eq s.timezone_offset offset) || not (s.timezone_dst_until == until))
        (with_zone offset until s) s (inl refl) h)
      h
