-- ===== src/Schedule/Configurations.antt =====
-- The fields of the configurations that src/property/types/CloudSchedule.h makes.
use Prim.Native.Nat.{bit_or}
use arduino_io_tcloud.Common.{
  ℕ, zero, suc, ◌+◌, ◌*◌, ◌/◌, ◌%◌, ◌^◌, ◌≤◌, ◌<◌, ◌≡◌, sym, ap, ◌∙◌, Bool, ltb, if◌then◌else◌,
  Bool-cases, inl, inr, ℤ, bit_or-low, bit_or-high, bit_or-tops, arith,
}
use arduino_io_tcloud.Schedule.{
  ScheduleUnit, unit_number, type_shift, unit_shift, rep_mask,
  create_fixed_delta_schedule_configuration, week_bits, create_weekly_schedule_configuration,
  clamp_day, create_monthly_schedule_configuration, create_yearly_schedule_configuration,
  month_shift, get_schedule_type,
}

abbrev pub bit : Bool → ℕ
bit b = if b then 1 else 0

abbrev pub limited : ℕ → ℕ
limited delta = if ltb rep_mask delta then rep_mask else delta

pub create_fixed_delta-sum :
    (unit : ScheduleUnit) (delta : ℕ)
    → create_fixed_delta_schedule_configuration unit delta
      ≡ unit_number unit * unit_shift + type_shift + limited delta
unfolding create_fixed_delta_schedule_configuration
create_fixed_delta-sum unit delta =
    let u = unit_number unit in
    let upper : bit_or (u * unit_shift) type_shift ≡ (u * 16 + 1) * 2 ^ 26 =
      bit_or-high 30 u type_shift (omega arith) ∙ omega arith in
    ap (λ x. bit_or x (limited delta)) upper
    ∙ bit_or-high 26 (u * 16 + 1) (limited delta) (ground arith)
    ∙ omega arith

week_bits-suc :
    (f : ℕ → Bool) (i : ℕ)
    → week_bits f i < 2 ^ i
    → week_bits f (suc i) ≡ week_bits f i + bit (f i) * 2 ^ i
unfolding week_bits
week_bits-suc f i h = elim (Bool-cases (f i)) [
  | inr e ↦ rw e (omega arith)
  | inl e ↦
      let one : 1 * 2 ^ i ≡ 2 ^ i = omega arith in
      rw e (ap (bit_or (week_bits f i)) (sym one) ∙ bit_or-low i (week_bits f i) 1 h ∙ omega arith)
]

week_bits_small : (f : ℕ → Bool) (i : ℕ) → week_bits f i < 2 ^ i
unfolding week_bits
week_bits_small f zero = omega arith
week_bits_small f (suc i) =
    let h = week_bits_small f i in
    let e = week_bits-suc f i h in
    elim (Bool-cases (f i)) [
      | inl b ↦ omega (arith, e, h, ap (λ x. bit x * 2 ^ i) b)
      | inr b ↦ omega (arith, e, h, ap (λ x. bit x * 2 ^ i) b)
    ]

pub week_bits-sum :
    (f : ℕ → Bool)
    → week_bits f 7
      ≡ bit (f 0)
        + bit (f 1) * 2
        + bit (f 2) * 4
        + bit (f 3) * 8
        + bit (f 4) * 16
        + bit (f 5) * 32
        + bit (f 6) * 64
week_bits-sum f =
    let e0 = week_bits-suc f 0 (week_bits_small f 0) in
    let e1 = week_bits-suc f 1 (week_bits_small f 1) in
    let e2 = week_bits-suc f 2 (week_bits_small f 2) in
    let e3 = week_bits-suc f 3 (week_bits_small f 3) in
    let e4 = week_bits-suc f 4 (week_bits_small f 4) in
    let e5 = week_bits-suc f 5 (week_bits_small f 5) in
    let e6 = week_bits-suc f 6 (week_bits_small f 6) in
    omega (arith, week_bits_small f 0, e0, e1, e2, e3, e4, e5, e6)

pub create_weekly-sum :
    (f : ℕ → Bool) → create_weekly_schedule_configuration f ≡ 2 * type_shift + week_bits f 7
unfolding create_weekly_schedule_configuration
create_weekly-sum f = bit_or-high 26 2 (week_bits f 7) (omega (arith, week_bits_small f 7))

pub clamp_day_small : (n : ℤ) → (1 ≤ clamp_day n) × (clamp_day n ≤ 31)
unfolding clamp_day
clamp_day_small (ℤ.negsuc n) = (omega arith, omega arith)
clamp_day_small (ℤ.pos n) = (ground arith, ground arith)

pub create_monthly-sum :
    (n : ℤ) → create_monthly_schedule_configuration n ≡ 3 * type_shift + clamp_day n
unfolding create_monthly_schedule_configuration
create_monthly-sum n = bit_or-high 26 3 (clamp_day n) (omega (arith, clamp_day_small n))

-- The type of a yearly configuration, which the bits of the monthly one make 7.
pub create_yearly-type :
    (month : ℕ) (n : ℤ)
    → month < 12
    → get_schedule_type (create_yearly_schedule_configuration month n) ≡ 7
unfolding create_yearly_schedule_configuration get_schedule_type
create_yearly-type month n h =
    let d = clamp_day n in
    let b = clamp_day_small n in
    let upper : bit_or (4 * 2 ^ 26) (month * month_shift) ≡ 4 * 2 ^ 26 + month * month_shift =
      bit_or-high 26 4 (month * month_shift) (omega arith) in
    let seven = bit_or-tops 26 (month * month_shift) d (omega arith) (omega (arith, b)) in
    ap (λ x. bit_or (bit_or (4 * 2 ^ 26) (month * month_shift)) x / type_shift % 16)
      (create_monthly-sum n)
    ∙ ap (λ x. bit_or x (3 * type_shift + d) / type_shift % 16) upper
    ∙ omega (arith, seven)
