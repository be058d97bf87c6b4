-- ===== src/TimeService/Zones.antt =====
-- Which timezones `setTimeZoneData` of src/utility/time/TimeService.cpp takes.
use native.Mathlib.Decide.{dec_lt}
use arduino_io_tcloud.Common.{
  ℕ, ◌+◌, ◌-◌, ◌*◌, ◌≤◌, ◌<◌, ◌≡◌, ◌⊎◌, inl, inr, refl, ap, ◌∙◌, true, false, not, ◌||◌, ◌&&◌,
  if◌then◌else◌, Bool-cases, ==_iff, int_eq_eq, int_eq, ◌==◌, ℤ, arith,
}
use arduino_io_tcloud.TimeService.{
  TimeService, is_time_valid, is_time_zone_offset_valid, set_time_zone_data,
}

-- Less than 14 hours ahead of UTC, and less than 12 behind it.
abbrev pub IsWithin : ℤ → Type 0
IsWithin (ℤ.pos n) = n < 14 * 60 * 60
IsWithin (ℤ.negsuc n) = n + 1 < 12 * 60 * 60

offset-IsWithin :
    (offset : ℤ)
    → ((is_time_zone_offset_valid offset ≡ true) × IsWithin offset)
      ⊎ ((is_time_zone_offset_valid offset ≡ false) × ¬ IsWithin offset)
unfolding is_time_zone_offset_valid
offset-IsWithin (ℤ.pos n) = elim (dec_lt n 50400) [
  | yes h ↦ inl (ground arith, h)
  | no h ↦ inr (ground arith, λ k. h k)
]
offset-IsWithin (ℤ.negsuc n) = elim (dec_lt n 43199) [
  | yes h ↦ inl (ground arith, omega arith)
  | no h ↦ inr (ground arith, λ k. absurd (omega arith))
]

-- The state holds this timezone.
abbrev HasZone : ℤ → ℕ → TimeService → Type 0
HasZone offset until s = (s.timezone_offset ≡ offset) × (s.timezone_dst_until ≡ until)

-- What is done with valid data.
abbrev store : ℕ → ℤ → TimeService → TimeService
store until offset s =
    if not (int_eq s.timezone_offset offset) || not (s.timezone_dst_until == until)
    then record s { timezone_offset = offset; timezone_dst_until = until; is_tz_configured = true }
    else s

store-HasZone :
    (offset : ℤ) (until : ℕ) (s : TimeService) → HasZone offset until (store until offset s)
store-HasZone offset until s = elim (Bool-cases (int_eq s.timezone_offset offset)) [
  | inr e ↦ rw e (refl, refl)
  | inl e ↦ elim (Bool-cases (s.timezone_dst_until == until)) [
    | inr f ↦ rw (e, f) (refl, refl)
    | inl f ↦
        rw (e, f) (int_eq_eq s.timezone_offset offset e, (==_iff s.timezone_dst_until until).0 f)
  ]
]

later :
    (compile_time until : ℕ)
    → is_time_valid compile_time until ≡ true
    → compile_time - 14 * 60 * 60 < until
unfolding is_time_valid
later compile_time until e = ground arith

not_later :
    (compile_time until : ℕ)
    → is_time_valid compile_time until ≡ false
    → until ≤ compile_time - 14 * 60 * 60
unfolding is_time_valid
not_later compile_time until e = ground arith

-- Of any offset and any end of its validity: they are stored if the offset lies strictly between 12
-- hours behind and 14 hours ahead of UTC and the end is later than 14 hours before the time of
-- compilation; otherwise the state is left as it is. The timezones at the two ends are refused.
pub set_time_zone_data-bounds :
    (compile_time until : ℕ) (offset : ℤ) (s : TimeService)
    → let s' = set_time_zone_data compile_time offset until s in
      (IsWithin offset
        × (compile_time - 14 * 60 * 60 < until)
        × (s'.timezone_offset ≡ offset)
        × (s'.timezone_dst_until ≡ until))
      ⊎ (((¬ IsWithin offset) ⊎ (until ≤ compile_time - 14 * 60 * 60)) × (s' ≡ s))
unfolding set_time_zone_data
set_time_zone_data-bounds compile_time until offset s = elim (offset-IsWithin offset) [
  | inr (e, h) ↦
      inr (
        inl h,
        ap (λ b. if b && is_time_valid compile_time until then store until offset s else s) e,
      )
  | inl (e, h) ↦ elim (Bool-cases (is_time_valid compile_time until)) [
    | inl f ↦
        let r : set_time_zone_data compile_time offset until s ≡ store until offset s =
          ap (λ b. if b && is_time_valid compile_time until then store until offset s else s) e
          ∙ ap (λ b. if b then store until offset s else s) f in
        let k = store-HasZone offset until s in
        inl (
          h,
          later compile_time until f,
          ap (λ (x : TimeService). x.timezone_offset) r ∙ k.0,
          ap (λ (x : TimeService). x.timezone_dst_until) r ∙ k.1,
        )
    | inr f ↦ inr (
      inr (not_later compile_time until f),
      ap (λ b. if b && is_time_valid compile_time until then store until offset s else s) e
          ∙ ap (λ b. if b then store until offset s else s) f,
    )
  ]
]
