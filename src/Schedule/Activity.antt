-- ===== src/Schedule/Activity.antt =====
-- When the schedules of src/property/types/CloudSchedule.h are active, in terms of the plans they were
-- made from.
use Prim.Native.Nat.{max}
use arduino_io_tcloud.Common.{
  ℕ, ◌-◌, ◌*◌, ◌/◌, ◌%◌, ◌^◌, ◌≤◌, ◌<◌, ◌≡◌, refl, ap, ◌∙◌, Bool, true, false, not, ◌&&◌, Option,
  some, leb, ◌==◌, min, if◌then◌else◌, ℤ, bit_and-digit, u32_mod, arith,
}
use native.Mathlib.Nat.{mod-eq_of_lt}
use arduino_io_tcloud.Schedule.{
  CalendarDay, ScheduleUnit, unit_seconds, create_one_shot_schedule_configuration,
  create_yearly_schedule_configuration, get_schedule_type, check_schedule_period,
  check_schedule_mask, get_schedule_delta, is_in_delta, is_active_at,
}
use arduino_io_tcloud.Schedule.Configurations.{limited, create_yearly-type}
use arduino_io_tcloud.Schedule.Plans.{
  Plan, once, every, on_weekdays, on_day, configuration, includes, interval, Fits, made, mask-fixed,
  mask-weekly, mask-monthly, mask-other, delta-fixed, delta-weekly, delta-monthly, bit_is,
  week_digit, limited_positive, fixed_fields, positive_seconds, weekly_fields, monthly_fields,
}

-- The tests of `isActive` in their order.
guarded :
    (x p m l : Bool) {d : Option Bool}
    → (p ≡ true → d ≡ some l)
    → (if x && p && m then d else some false) ≡ some (x && p && m && l)
guarded true true true l h = h refl
guarded true true false l h = refl
guarded true false m l h = refl
guarded false p m l h = refl

never : (x p : Bool) (d : Option Bool) → (if x && p && false then d else some false) ≡ some false
never true true d = refl
never true false d = refl
never false p d = refl

-- The test of the day, and the seconds between two activations.
module _ (gmtime : ℕ → CalendarDay) (now : ℕ) where
  abbrev AreRead : Plan → Type 0
  AreRead plan =
      (check_schedule_mask gmtime now (configuration plan) ≡ includes plan (gmtime now))
      × (get_schedule_delta (configuration plan) ≡ interval plan)
      × (0 < interval plan)

  once-AreRead : AreRead once
  unfolding check_schedule_mask get_schedule_delta get_schedule_type
      create_one_shot_schedule_configuration
  once-AreRead = (refl, refl, omega arith)

  every-AreRead :
      (unit : ScheduleUnit) (delta : ℕ) → Fits (every unit delta) → AreRead (every unit delta)
  every-AreRead unit delta h =
      let e = fixed_fields unit delta h.0 in
      let l = limited_positive delta h.0 in
      (
        mask-fixed gmtime now _ e.0,
        delta-fixed unit _ e.0 e.1
            ∙ ap (λ x. unit_seconds unit * x % u32_mod) e.2
            ∙ mod-eq_of_lt h.1,
        positive_seconds unit (limited delta) l.0,
      )

  weekdays-AreRead : (f : ℕ → Bool) → (gmtime now).tm_wday < 7 → AreRead (on_weekdays f)
  weekdays-AreRead f h =
      let d = (gmtime now).tm_wday in
      let e = weekly_fields f in
      (
        mask-weekly gmtime now _ e.0
            ∙ bit_and-digit d _ h
            ∙ ap (λ w. w / 2 ^ d % 2 == 1) e.1
            ∙ ap (λ b. b == 1) (week_digit f d h)
            ∙ bit_is (f d),
        delta-weekly _ e.0,
        omega arith,
      )

  day-AreRead : (n : ℤ) → AreRead (on_day n)
  day-AreRead n =
      let e = monthly_fields n in
      (
        mask-monthly gmtime now _ e.0 ∙ ap (λ d. (gmtime now).tm_mday == d) e.1,
        delta-monthly _ e.0,
        omega arith,
      )

  read : (plan : Plan) → (gmtime now).tm_wday < 7 → Fits plan → AreRead plan
  read once h k = once-AreRead
  read (every unit delta) h k = every-AreRead unit delta k
  read (on_weekdays f) h k = weekdays-AreRead f h
  read (on_day n) h k = day-AreRead n

  in_delta :
      (frm to len : ℕ) (plan : Plan) (delta : ℕ)
      → 0 < delta
      → check_schedule_period now frm to ≡ true
      → is_in_delta now (made frm to len plan) delta ≡ some (leb ((now - frm) % delta) len)
  unfolding is_in_delta check_schedule_period
  in_delta frm to len plan delta h k =
      let le : frm ≤ now = ground (arith, k) in
      let some_delta : (delta == 0) ≡ false = ground arith in
      let since : max now frm - min now frm ≡ now - frm = omega arith in rw (some_delta, since)

  -- A schedule that was made for a plan is active at a local time if the time is known and in the
  -- schedule's period, the plan includes its day, and no more than the schedule's length has passed
  -- since the last activation, where activations are the plan's interval apart, from its start on.
  pub is_active_at-plan :
      (frm to len : ℕ) (plan : Plan)
      → (gmtime now).tm_wday < 7
      → Fits plan
      → is_active_at gmtime now (made frm to len plan)
        ≡ some (
            not (now == 0)
            && check_schedule_period now frm to
            && includes plan (gmtime now)
            && leb ((now - frm) % interval plan) len)
  unfolding is_active_at
  is_active_at-plan frm to len plan h k =
      let r = read plan h k in
      rw (r.0, r.1)
        (guarded (not (now == 0)) (check_schedule_period now frm to) (includes plan (gmtime now))
          (leb ((now - frm) % interval plan) len) (in_delta frm to len plan (interval plan) r.2))

  -- A yearly schedule that was made on the device is never active.
  pub is_active_at-yearly :
      (frm to len month : ℕ) (n : ℤ)
      → month < 12
      → is_active_at gmtime now (record {
        frm = frm;
        to = to;
        len = len;
        msk = create_yearly_schedule_configuration month n;
      })
        ≡ some false
  unfolding is_active_at
  is_active_at-yearly frm to len month n h =
      rw (mask-other gmtime now _ (create_yearly-type month n h))
        (never (not (now == 0)) (check_schedule_period now frm to) _)
