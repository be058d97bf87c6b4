-- ===== src/Witnesses/Times.antt =====
-- Clocks, time servers and schedules.
use arduino_io_tcloud.Common.{
  ℕ, ◌-◌, ◌*◌, ◌<◌, ◌≤◌, ◌⊎◌, ◌≡◌, refl, Bool, true, false, some, [], ◌∷◌, ◌==◌, ◌||◌, pos, arith,
}
use arduino_io_tcloud.TimeService.{
  RtcMillis, TimeService, Sources, create, begin, get_rtc, set_rtc, sync, get_time,
  set_time_zone_data, is_time_valid, source_time, get_remote_time, connected,
}
use arduino_io_tcloud.TimeService.Clock.{readings, get_rtc-readings}
use arduino_io_tcloud.TimeService.Syncs.{get_time-synced}
use arduino_io_tcloud.TimeService.Zones.{set_time_zone_data-bounds}
use arduino_io_tcloud.TimeService.Ntp as Ntp
use arduino_io_tcloud.TimeService.Ntp.{zeros, server_packet, get_time-server}
use arduino_io_tcloud.Schedule.{
  CalendarDay, is_active_at, create_yearly_schedule_configuration, check_schedule_period,
}
use arduino_io_tcloud.Schedule.Plans.{on_weekdays, made}
use arduino_io_tcloud.Schedule.Activity.{is_active_at-plan, is_active_at-yearly}

abbrev stopped : RtcMillis
stopped = record { last_rtc_update_tick = 0; last_rtc_update_value = 0 }

-- Set at 4294967000 ms, shortly before `millis()` wraps, and read after 700, 700 and 700 ms.
get_rtc-readings_example :
    (get_rtc 1804
      (readings 4294967000 0 (700 ∷ 700 ∷ []) (set_rtc 4294967000 1700000000 stopped))).0
    ≡ 1700000002
get_rtc-readings_example =
    get_rtc-readings 4294967000 1700000000 700 (700 ∷ 700 ∷ []) stopped
      (omega arith, (omega arith, tt)) (omega arith)

-- The network knows the time, and 50 seconds later it does not.
abbrev answering : Sources
answering = record {
  tick = 5000;
  tick_after = 6000;
  compile_time = 1690000000;
  is_connected = true;
  is_cellular = false;
  ntp_time = 1700000000;
  connection_time = 0;
  sync_func_time = 0;
}

abbrev silent : Sources
silent = record answering { tick = 56000; tick_after = 56000; is_connected = false; ntp_time = 0 }

abbrev service : TimeService
service = begin true (create stopped)

get_time-synced_example : (get_time silent (sync answering service).1).0 ≡ 1700000050
unfolding begin create source_time get_remote_time connected is_time_valid
get_time-synced_example =
    get_time-synced answering silent service 50000 refl (omega arith) (omega arith) (omega arith)
      (omega arith) refl refl

-- Fourteen hours ahead of UTC.
set_time_zone_data-bounds_example :
    let s' = set_time_zone_data 1690000000 (pos 50400) 1710000000 service in
    ((50400 < 50400)
      × (1690000000 - 14 * 60 * 60 < 1710000000)
      × (s'.timezone_offset ≡ pos 50400)
      × (s'.timezone_dst_until ≡ 1710000000))
    ⊎ (((¬ (50400 < 50400)) ⊎ (1710000000 ≤ 1690000000 - 14 * 60 * 60)) × (s' ≡ service))
set_time_zone_data-bounds_example =
    set_time_zone_data-bounds 1690000000 1710000000 (pos 50400) service

-- The packet is there at the third poll.
get_time-server_example :
    Ntp.get_time
      (λ n. 0)
      100
      ((200, false) ∷ (500, false) ∷ (900, true) ∷ [])
      (server_packet (zeros 40) [] 1700000000)
    ≡ some 1700000000
get_time-server_example =
    get_time-server (λ n. 0) 100 900 1700000000 ((200, false) ∷ (500, false) ∷ []) [] (zeros 40) []
      ((omega arith, refl, (omega arith, refl, tt))) refl (omega arith)

-- 17 November, a Friday.
abbrev friday : ℕ → CalendarDay
friday now = record { tm_wday = 5; tm_mday = 17; tm_mon = 10 }

abbrev mondays_and_fridays : ℕ → Bool
mondays_and_fridays d = d == 1 || d == 5

-- 100 seconds into the window of 600 that opens every day at the same time.
is_active_at-plan_example :
    is_active_at friday 1700172900 (made 1700000000 0 600 (on_weekdays mondays_and_fridays))
    ≡ some true
unfolding check_schedule_period
is_active_at-plan_example =
    is_active_at-plan friday 1700172900 1700000000 0 600 (on_weekdays mondays_and_fridays)
      (omega arith) tt

is_active_at-yearly_example :
    is_active_at friday 1700172900 (record {
      frm = 1700000000;
      to = 0;
      len = 600;
      msk = create_yearly_schedule_configuration 10 (pos 17);
    })
    ≡ some false
is_active_at-yearly_example =
    is_active_at-yearly friday 1700172900 1700000000 0 600 10 (pos 17) (omega arith)
