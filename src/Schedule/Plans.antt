-- ===== src/Schedule/Plans.antt =====
-- The plans that schedules of src/property/types/CloudSchedule.h are made for, and what the functions
-- of that file read in their configurations.
use Prim.Native.Nat.{bit_and}
use arduino_io_tcloud.Common.{
  ℕ, zero, suc, ◌-◌, ◌*◌, ◌/◌, ◌%◌, ◌^◌, ◌≤◌, ◌<◌, ◌≡◌, refl, Bool, true, false, ◌==◌, nonzero,
  if◌then◌else◌, ℤ, u32_mod, arith,
}
use arduino_io_tcloud.Schedule.{
  Schedule, CalendarDay, ScheduleUnit, seconds, minutes, hours, days, unit_number, unit_seconds,
  type_shift, create_one_shot_schedule_configuration, create_fixed_delta_schedule_configuration,
  create_weekly_schedule_configuration, week_bits, clamp_day, create_monthly_schedule_configuration,
  get_schedule_type, get_schedule_unit, get_schedule_repetition, get_schedule_week_mask,
  get_schedule_day, check_schedule_mask, get_schedule_delta,
}
use arduino_io_tcloud.Schedule.Configurations.{
  bit, limited, create_fixed_delta-sum, week_bits-sum, create_weekly-sum, create_monthly-sum,
  clamp_day_small,
}

-- What a schedule is for.
pub data Plan : Type 0 where
  once : Plan
  every : ScheduleUnit → ℕ → Plan
  on_weekdays : (ℕ → Bool) → Plan
  on_day : ℤ → Plan

abbrev pub configuration : Plan → ℕ
configuration once = create_one_shot_schedule_configuration
configuration (every unit delta) = create_fixed_delta_schedule_configuration unit delta
configuration (on_weekdays week_mask) = create_weekly_schedule_configuration week_mask
configuration (on_day n) = create_monthly_schedule_configuration n

-- The days of a plan, and the seconds from one activation to the next.
abbrev pub includes : Plan → CalendarDay → Bool
includes once c = true
includes (every unit delta) c = true
includes (on_weekdays week_mask) c = week_mask c.tm_wday
includes (on_day n) c = c.tm_mday == clamp_day n

abbrev pub interval : Plan → ℕ
interval once = u32_mod - 1
interval (every unit delta) = unit_seconds unit * limited delta
interval (on_weekdays week_mask) = 86400
interval (on_day n) = 86400

-- A repetition that is not 0 and whose seconds fit 32 bits.
abbrev pub Fits : Plan → Type 0
Fits (every unit delta) = (0 < delta) × (unit_seconds unit * limited delta < u32_mod)
Fits _ = Unit {0}

abbrev pub made : ℕ → ℕ → ℕ → Plan → Schedule
made frm to len plan = record { frm = frm; to = to; len = len; msk = configuration plan }

if_true-false : (b : Bool) → (if b then true else false) ≡ b
if_true-false true = refl
if_true-false false = refl

module _ (gmtime : ℕ → CalendarDay) where
  -- The tests on a configuration, by its type.
  pub mask-fixed :
      (now msk : ℕ) → get_schedule_type msk ≡ 1 → check_schedule_mask gmtime now msk ≡ true
  unfolding check_schedule_mask
  mask-fixed now msk e = rw e

  pub mask-weekly :
      (now msk : ℕ)
      → get_schedule_type msk ≡ 2
      → check_schedule_mask gmtime now msk
        ≡ nonzero (bit_and (2 ^ (gmtime now).tm_wday) (get_schedule_week_mask msk))
  unfolding check_schedule_mask
  mask-weekly now msk e =
      rw e
        (if_true-false (nonzero (bit_and (2 ^ (gmtime now).tm_wday) (get_schedule_week_mask msk))))

  pub mask-monthly :
      (now msk : ℕ)
      → get_schedule_type msk ≡ 3
      → check_schedule_mask gmtime now msk ≡ ((gmtime now).tm_mday == get_schedule_day msk)
  unfolding check_schedule_mask
  mask-monthly now msk e = rw e (if_true-false ((gmtime now).tm_mday == get_schedule_day msk))

  pub mask-other :
      (now msk : ℕ) → get_schedule_type msk ≡ 7 → check_schedule_mask gmtime now msk ≡ false
  unfolding check_schedule_mask
  mask-other now msk e = rw e

pub delta-fixed :
    (unit : ScheduleUnit) (msk : ℕ)
    → get_schedule_type msk ≡ 1
    → get_schedule_unit msk ≡ unit_number unit
    → get_schedule_delta msk ≡ unit_seconds unit * get_schedule_repetition msk % u32_mod
unfolding get_schedule_delta
delta-fixed seconds msk e f = rw (e, f)
delta-fixed minutes msk e f = rw (e, f)
delta-fixed hours msk e f = rw (e, f)
delta-fixed days msk e f = rw (e, f)

pub delta-weekly : (msk : ℕ) → get_schedule_type msk ≡ 2 → get_schedule_delta msk ≡ 86400
unfolding get_schedule_delta
delta-weekly msk e = rw e

pub delta-monthly : (msk : ℕ) → get_schedule_type msk ≡ 3 → get_schedule_delta msk ≡ 86400
unfolding get_schedule_delta
delta-monthly msk e = rw e

bit_small : (b : Bool) → bit b ≤ 1
bit_small true = omega arith
bit_small false = omega arith

pub bit_is : (b : Bool) → (bit b == 1) ≡ b
bit_is true = refl
bit_is false = refl

days_small :
    (f : ℕ → Bool)
    → (bit (f 0) ≤ 1)
      × (bit (f 1) ≤ 1)
      × (bit (f 2) ≤ 1)
      × (bit (f 3) ≤ 1)
      × (bit (f 4) ≤ 1)
      × (bit (f 5) ≤ 1)
      × (bit (f 6) ≤ 1)
days_small f = (
  bit_small (f 0),
  bit_small (f 1),
  bit_small (f 2),
  bit_small (f 3),
  bit_small (f 4),
  bit_small (f 5),
  bit_small (f 6),
)

-- The digits of a week.
pub week_digit : (f : ℕ → Bool) (d : ℕ) → d < 7 → week_bits f 7 / 2 ^ d % 2 ≡ bit (f d)
week_digit f zero h = omega (arith, week_bits-sum f, days_small f)
week_digit f (suc zero) h = omega (arith, week_bits-sum f, days_small f)
week_digit f (suc (suc zero)) h = omega (arith, week_bits-sum f, days_small f)
week_digit f (suc (suc (suc zero))) h = omega (arith, week_bits-sum f, days_small f)
week_digit f (suc (suc (suc (suc zero)))) h = omega (arith, week_bits-sum f, days_small f)
week_digit f (suc (suc (suc (suc (suc zero))))) h = omega (arith, week_bits-sum f, days_small f)
week_digit f (suc (suc (suc (suc (suc (suc zero)))))) h =
    omega (arith, week_bits-sum f, days_small f)
week_digit f (suc (suc (suc (suc (suc (suc (suc d))))))) h = absurd (omega arith)

pub limited_positive : (delta : ℕ) → 0 < delta → (0 < limited delta) × (limited delta < type_shift)
limited_positive delta h = (ground arith, ground arith)

-- The fields of the configuration of a repetition.
pub fixed_fields :
    (unit : ScheduleUnit) (delta : ℕ)
    → 0 < delta
    → let msk = configuration (every unit delta) in
      (get_schedule_type msk ≡ 1)
      × (get_schedule_unit msk ≡ unit_number unit)
      × (get_schedule_repetition msk ≡ limited delta)
unfolding get_schedule_type get_schedule_unit get_schedule_repetition
fixed_fields unit delta h =
    let l = limited_positive delta h in
    let e = create_fixed_delta-sum unit delta in
    (omega (arith, l, e), omega (arith, l, e), omega (arith, l, e))

pub positive_seconds : (unit : ScheduleUnit) (n : ℕ) → 0 < n → 0 < unit_seconds unit * n
positive_seconds seconds n h = omega arith
positive_seconds minutes n h = omega arith
positive_seconds hours n h = omega arith
positive_seconds days n h = omega arith

-- The fields of the other two configurations.
pub weekly_fields :
    (f : ℕ → Bool)
    → let msk = configuration (on_weekdays f) in
      (get_schedule_type msk ≡ 2) × (get_schedule_week_mask msk ≡ week_bits f 7)
unfolding get_schedule_type get_schedule_week_mask
weekly_fields f =
    let e = create_weekly-sum f in
    let w = week_bits-sum f in
    let b = days_small f in (omega (arith, e, w, b), omega (arith, e, w, b))

pub monthly_fields :
    (n : ℤ)
    → let msk = configuration (on_day n) in
      (get_schedule_type msk ≡ 3) × (get_schedule_day msk ≡ clamp_day n)
unfolding get_schedule_type get_schedule_day
monthly_fields n =
    let e = create_monthly-sum n in
    let b = clamp_day_small n in (omega (arith, e, b), omega (arith, e, b))
