-- ===== src/TimeService.antt =====
-- src/utility/time/TimeService.{h,cpp}, with the clock of src/utility/time/RTCMillis.{h,cpp} that an
-- ESP8266 board has, and a network (`HAS_TCP`). What the board and the network answer during a call
-- are the fields of a `Sources`; `compile_time` is `EPOCH_AT_COMPILE_TIME`, the date of the build.
pub mod Clock
pub mod Syncs
pub mod Zones
pub mod Dates
pub mod Ntp
use arduino_io_tcloud.Common.{
  ℕ, ◌+◌, ◌-◌, ◌*◌, ◌/◌, ◌%◌, Bool, true, false, not, ◌&&◌, ◌||◌, Option, none, some, ltb, ◌==◌,
  nonzero, if◌then◌else◌, ℤ, int_eq, u32_mod,
}

-- `RTCMillis`.
pub record RtcMillis : Type 0 where
  pub last_rtc_update_tick : ℕ
  pub last_rtc_update_value : ℕ

-- `RTCMillis::set` and `RTCMillis::get`, when `millis()` is `tick`.
unfoldable pub set_rtc : ℕ → ℕ → RtcMillis → RtcMillis
set_rtc tick time r = record { last_rtc_update_tick = tick; last_rtc_update_value = time }

unfoldable pub get_rtc : ℕ → RtcMillis → ℕ × RtcMillis
get_rtc tick r =
    let elapsed_s = (tick + u32_mod - r.last_rtc_update_tick) % u32_mod / 1000 in
    let value = (r.last_rtc_update_value + elapsed_s) % u32_mod in
    (
      value,
      record {
        last_rtc_update_tick = (r.last_rtc_update_tick + elapsed_s * 1000) % u32_mod;
        last_rtc_update_value = value;
      },
    )

-- `millis()` before and after the sources of the time were asked, what the connection and the NTP
-- server answer, and the user's function, if there is one.
pub record Sources : Type 0 where
  pub tick : ℕ
  pub tick_after : ℕ
  pub compile_time : ℕ
  pub is_connected : Bool
  pub is_cellular : Bool
  pub ntp_time : ℕ
  pub connection_time : ℕ
  pub sync_func_time : ℕ

pub record TimeService : Type 0 where
  pub has_con_hdl : Bool
  pub is_rtc_configured : Bool
  pub is_tz_configured : Bool
  pub timezone_offset : ℤ
  pub timezone_dst_until : ℕ
  pub last_sync_tick : ℕ
  pub sync_interval_ms : ℕ
  pub has_sync_func : Bool
  pub rtc : RtcMillis

abbrev pub epoch : ℕ
epoch = 0

abbrev pub ntp_sync_timeout_ms : ℕ
ntp_sync_timeout_ms = 86400 * 1000

unfoldable pub create : RtcMillis → TimeService
create r = record {
  has_con_hdl = false;
  is_rtc_configured = false;
  is_tz_configured = false;
  timezone_offset = ℤ.pos (24 * 60 * 60);
  timezone_dst_until = 0;
  last_sync_tick = 0;
  sync_interval_ms = ntp_sync_timeout_ms;
  has_sync_func = false;
  rtc = r;
}

-- `begin`; `RTCMillis::begin` does nothing.
unfoldable pub begin : Bool → TimeService → TimeService
begin con_hdl s = record s { has_con_hdl = con_hdl }

unfoldable pub is_time_valid : ℕ → ℕ → Bool
is_time_valid compile_time time = ltb (compile_time - 14 * 60 * 60) time

-- `<` of a `long`.
abbrev pub int_ltb : ℤ → ℤ → Bool
int_ltb (ℤ.pos a) (ℤ.pos b) = ltb a b
int_ltb (ℤ.pos a) (ℤ.negsuc b) = false
int_ltb (ℤ.negsuc a) (ℤ.pos b) = true
int_ltb (ℤ.negsuc a) (ℤ.negsuc b) = ltb b a

-- The bounds are 14 * 60 * 60 and -12 * 60 * 60.
unfoldable pub is_time_zone_offset_valid : ℤ → Bool
is_time_zone_offset_valid offset = int_ltb offset (ℤ.pos 50400) && int_ltb (ℤ.negsuc 43199) offset

unfoldable pub connected : Sources → TimeService → Bool
connected w s = s.has_con_hdl && w.is_connected

unfoldable pub get_remote_time : Sources → TimeService → ℕ
get_remote_time w s =
    if connected w s
    then (if not w.is_cellular && is_time_valid w.compile_time w.ntp_time
        then w.ntp_time
        else if is_time_valid w.compile_time w.connection_time
        then w.connection_time
        else epoch)
    else epoch

unfoldable pub set_time : ℕ → ℕ → TimeService → TimeService
set_time tick time s = record s { rtc = set_rtc tick time s.rtc }

-- The time that `sync` is given.
unfoldable pub source_time : Sources → TimeService → ℕ
source_time w s = if s.has_sync_func then w.sync_func_time else get_remote_time w s

unfoldable pub sync : Sources → TimeService → Bool × TimeService
sync w s =
    let utc = source_time w s in
    if is_time_valid w.compile_time utc
    then (
      true,
      record (set_time w.tick_after utc s) {
        last_sync_tick = w.tick_after;
        is_rtc_configured = true;
      },
    )
    else (false, record s { is_rtc_configured = false })

-- Whether `getTime` asks the sources.
unfoldable pub is_sync_due : Sources → TimeService → Bool
is_sync_due w s =
    not s.is_rtc_configured
    || ltb s.sync_interval_ms ((w.tick + u32_mod - s.last_sync_tick) % u32_mod)

abbrev pub read_rtc : Sources → TimeService → ℕ × TimeService
read_rtc w s = let (time, r) = get_rtc w.tick_after s.rtc in (time, record s { rtc = r })

-- What `getTime` does after that.
abbrev pub current_time : Sources → TimeService → ℕ × TimeService
current_time w s = if nonzero s.last_sync_tick then read_rtc w s else (w.compile_time, s)

unfoldable pub get_time : Sources → TimeService → ℕ × TimeService
get_time w s = current_time w (if is_sync_due w s then (sync w s).1 else s)

unfoldable pub set_sync_interval : ℕ → TimeService → TimeService
set_sync_interval seconds s = record s { sync_interval_ms = seconds * 1000 % u32_mod }

-- `setSyncFunction`, with a function or a null pointer.
unfoldable pub set_sync_function : Bool → TimeService → TimeService
set_sync_function is_given s = if is_given then record s { has_sync_func = true } else s

unfoldable pub set_time_zone_data : ℕ → ℤ → ℕ → TimeService → TimeService
set_time_zone_data compile_time offset dst_until s =
    if is_time_zone_offset_valid offset && is_time_valid compile_time dst_until
    then (if not (int_eq s.timezone_offset offset) || not (s.timezone_dst_until == dst_until)
        then record s {
          timezone_offset = offset;
          timezone_dst_until = dst_until;
          is_tz_configured = true;
        }
        else s)
    else s

-- `utc + offset`, which wraps.
unfoldable pub add_offset : ℕ → ℤ → ℕ
add_offset utc (ℤ.pos n) = (utc + n) % u32_mod
add_offset utc (ℤ.negsuc n) = (utc + u32_mod - (n + 1)) % u32_mod

unfoldable pub get_local_time : Sources → TimeService → ℕ × TimeService
get_local_time w s =
    let (utc, s') = get_time w s in
    (if s'.is_tz_configured then add_offset utc s'.timezone_offset else epoch, s')
