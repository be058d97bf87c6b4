-- ===== src/Schedule.antt =====
-- src/property/types/CloudSchedule.h: when a schedule is active, and the configurations of schedules
-- that are made on the device. A configuration is a 32-bit word of fields: the unit in its two upper
-- bits, then four bits for the type, and 26 bits for the repetition, or the days and the month. What
-- `gmtime` makes of a time is a `CalendarDay`.
pub mod Configurations
pub mod Plans
pub mod Activity
pub mod Value
use Prim.Native.Nat.{bit_and, bit_or, max}
use arduino_io_tcloud.Common.{
  ℕ, zero, suc, ◌+◌, ◌-◌, ◌*◌, ◌/◌, ◌%◌, ◌^◌, Bool, true, false, not, ◌&&◌, ◌||◌, Option, none,
  some, ltb, leb, ◌==◌, nonzero, min, if◌then◌else◌, ℤ, u32_mod,
}
use arduino_io_tcloud.TimeService.{TimeService, Sources, get_local_time}

pub data ScheduleUnit : Type 0 where
  seconds minutes hours days : ScheduleUnit

-- The members of the enums as numbers.
abbrev pub unit_number : ScheduleUnit → ℕ
unit_number seconds = 0
unit_number minutes = 1
unit_number hours = 2
unit_number days = 3

abbrev pub one_shot : ℕ
one_shot = 0

abbrev pub fixed_delta : ℕ
fixed_delta = 1

abbrev pub weekly : ℕ
weekly = 2

abbrev pub monthly : ℕ
monthly = 3

abbrev pub yearly : ℕ
yearly = 4

abbrev pub unit_shift : ℕ
unit_shift = 2 ^ 30

abbrev pub type_shift : ℕ
type_shift = 2 ^ 26

abbrev pub month_shift : ℕ
month_shift = 2 ^ 8

abbrev pub rep_mask : ℕ
rep_mask = type_shift - 1

pub record Schedule : Type 0 where
  pub frm : ℕ
  pub to : ℕ
  pub len : ℕ
  pub msk : ℕ

pub record CalendarDay : Type 0 where
  pub tm_wday : ℕ
  pub tm_mday : ℕ
  pub tm_mon : ℕ

-- The configurations.
unfoldable pub create_one_shot_schedule_configuration : ℕ
create_one_shot_schedule_configuration = 0

unfoldable pub create_fixed_delta_schedule_configuration : ScheduleUnit → ℕ → ℕ
create_fixed_delta_schedule_configuration unit delta =
    let temp_delta = if ltb rep_mask delta then rep_mask else delta in
    bit_or (bit_or (unit_number unit * unit_shift) (fixed_delta * type_shift)) temp_delta

-- The loop over the days, after `n` rounds; `week_mask` says which days are active.
unfoldable pub week_bits : (ℕ → Bool) → ℕ → ℕ
week_bits week_mask zero = 0
week_bits week_mask (suc i) =
    let temp_week = week_bits week_mask i in
    if week_mask i then bit_or temp_week (2 ^ i) else temp_week

unfoldable pub create_weekly_schedule_configuration : (ℕ → Bool) → ℕ
create_weekly_schedule_configuration week_mask =
    bit_or (weekly * type_shift) (week_bits week_mask 7)

-- A day of the month, brought into 1 to 31.
unfoldable pub clamp_day : ℤ → ℕ
clamp_day (ℤ.negsuc n) = 1
clamp_day (ℤ.pos n) = if ltb n 1 then 1 else if ltb 31 n then 31 else n

unfoldable pub create_monthly_schedule_configuration : ℤ → ℕ
create_monthly_schedule_configuration day_of_the_month =
    bit_or (monthly * type_shift) (clamp_day day_of_the_month)

unfoldable pub create_yearly_schedule_configuration : ℕ → ℤ → ℕ
create_yearly_schedule_configuration month day_of_the_month =
    bit_or (bit_or (yearly * type_shift) (month * month_shift))
      (create_monthly_schedule_configuration day_of_the_month)

-- The fields.
unfoldable pub get_schedule_unit : ℕ → ℕ
get_schedule_unit msk = msk / unit_shift

unfoldable pub get_schedule_type : ℕ → ℕ
get_schedule_type msk = msk / type_shift % 16

unfoldable pub get_schedule_repetition : ℕ → ℕ
get_schedule_repetition msk = msk % type_shift

unfoldable pub get_schedule_week_mask : ℕ → ℕ
get_schedule_week_mask msk = msk % 256

unfoldable pub get_schedule_day : ℕ → ℕ
get_schedule_day msk = msk % 256

unfoldable pub get_schedule_month : ℕ → ℕ
get_schedule_month msk = msk / month_shift % 256

-- `isScheduleOneShot`, `isScheduleFixed` and so on.
abbrev pub is_type : ℕ → ℕ → Bool
is_type t msk = get_schedule_type msk == t

-- `isScheduleInSeconds`, `isScheduleInMinutes` and so on.
abbrev pub is_in : ScheduleUnit → ℕ → Bool
is_in unit msk =
    if is_type fixed_delta msk then get_schedule_unit msk == unit_number unit else false

unfoldable pub check_schedule_period : ℕ → ℕ → ℕ → Bool
check_schedule_period now frm to = leb frm now && (ltb now to || to == 0)

-- `SECONDS`, `MINUTES`, `HOURS` and `DAYS`.
abbrev pub unit_seconds : ScheduleUnit → ℕ
unit_seconds seconds = 1
unit_seconds minutes = 60
unit_seconds hours = 3600
unit_seconds days = 86400

abbrev pub times_unit : ScheduleUnit → ℕ → ℕ
times_unit unit msk = unit_seconds unit * get_schedule_repetition msk % u32_mod

unfoldable pub get_schedule_delta : ℕ → ℕ
get_schedule_delta msk =
    if is_in seconds msk
    then times_unit seconds msk
    else if is_in minutes msk
    then times_unit minutes msk
    else if is_in hours msk
    then times_unit hours msk
    else if is_in days msk
    then times_unit days msk
    else if is_type weekly msk || is_type monthly msk || is_type yearly msk
    then unit_seconds days
    else u32_mod - 1

-- The last test of `isActive`; none where it would divide by 0.
unfoldable pub is_in_delta : ℕ → Schedule → ℕ → Option Bool
is_in_delta now s delta =
    if delta == 0 then none else some (leb ((max now s.frm - min now s.frm) % delta) s.len)

module _ (gmtime : ℕ → CalendarDay) where
  unfoldable pub check_schedule_mask : ℕ → ℕ → Bool
  check_schedule_mask now msk =
      if is_type fixed_delta msk || is_type one_shot msk
      then true
      else if is_type weekly msk
          && nonzero (bit_and (2 ^ (gmtime now).tm_wday) (get_schedule_week_mask msk))
      then true
      else if is_type monthly msk && (gmtime now).tm_mday == get_schedule_day msk
      then true
      else is_type yearly msk
        && ((gmtime now).tm_mday == get_schedule_day msk
            && (gmtime now).tm_mon == get_schedule_month msk)

  -- `isActive` at the local time `now`.
  unfoldable pub is_active_at : ℕ → Schedule → Option Bool
  is_active_at now s =
      if not (now == 0) && check_schedule_period now s.frm s.to && check_schedule_mask now s.msk
      then is_in_delta now s (get_schedule_delta s.msk)
      else some false

  unfoldable pub is_active : Sources → Schedule → TimeService → Option Bool × TimeService
  is_active w s service =
      let (now, service') = get_local_time w service in (is_active_at now s, service')
