-- ===== src/Schedule/Value.antt =====
-- The class `CloudSchedule` of src/property/types/CloudSchedule.h: a schedule and its value in the
-- cloud, as a property.
use arduino_io_tcloud.Common.{
  ℕ, ◌≡◌, refl, ap, ◌∙◌, Bool, true, false, not, ◌&&◌, some, List, ◌==◌, ==_iff, if_both, nonzero,
  if◌then◌else◌,
}
use arduino_io_tcloud.Property.{Property, Methods, CborError, no_error, out_of_memory, split_items}
use arduino_io_tcloud.Property.Attributes.{
  MapEncoder, CborMapData, Doubles, append_attribute, unsigned_value, set_attribute, set_unsigned,
}
use arduino_io_tcloud.Property.Policy.{IsFaithful}
use arduino_io_tcloud.TimeService.{
  TimeService, Sources, get_local_time, get_time, sync, set_time, is_sync_due, is_time_valid,
  source_time, add_offset, epoch,
}
use arduino_io_tcloud.Schedule.{Schedule, CalendarDay, is_active, is_active_at}

pub record CloudSchedule : Type 0 where
  pub value : Schedule
  pub cloud_value : Schedule

-- `operator==`.
abbrev pub schedule_eq : Schedule → Schedule → Bool
schedule_eq s t = s.frm == t.frm && s.to == t.to && s.len == t.len && s.msk == t.msk

-- `CHECK_CBOR_MULTI`: an error is returned at once, the want of memory as `split_items`.
infixl 5 ◌then_append◌
abbrev pub ◌then_append◌ :
    {E : Type 0} → CborError × E × ℕ → (ℕ → E → CborError × E × ℕ) → CborError × E × ℕ
(no_error, e, n) then_append next = next n e
(out_of_memory, e, n) then_append next = (split_items, e, n)
(err, e, n) then_append next = (err, e, n)

module _ {D E F : Type 0} (t : MapEncoder E F) where
  unfoldable pub append_attributes_to_cloud : Property CloudSchedule D → E → CborError × E × ℕ
  append_attributes_to_cloud p e =
      append_attribute t p (unsigned_value p.value.value.frm) "frm" 0 e
      then_append append_attribute t p (unsigned_value p.value.value.to) "to"
      then_append append_attribute t p (unsigned_value p.value.value.len) "len"
      then_append append_attribute t p (unsigned_value p.value.value.msk) "msk"
      then_append λ n e. (no_error, e, n)

module _ {F G : Type 0} (d : Doubles F G) where
  unfoldable pub set_attributes_from_cloud : List (CborMapData F) → CloudSchedule → CloudSchedule
  set_attributes_from_cloud maps c =
      let v = c.cloud_value in
      let (frm, n) = set_attribute (set_unsigned d) "frm" 0 maps v.frm in
      let (to, n') = set_attribute (set_unsigned d) "to" n maps v.to in
      let (len, n'') = set_attribute (set_unsigned d) "len" n' maps v.len in
      let (msk, n''') = set_attribute (set_unsigned d) "msk" n'' maps v.msk in
      record c { cloud_value = record { frm = frm; to = to; len = len; msk = msk } }

module _ {D E F G : Type 0} (t : MapEncoder E F) (d : Doubles F G) where
  -- The virtual methods of the class.
  abbrev pub methods : Methods CloudSchedule D E (CborMapData F)
  methods = record {
    is_different_from_cloud = λ delta c. not (schedule_eq c.value c.cloud_value);
    from_cloud_to_local = λ c. record c { value = c.cloud_value };
    from_local_to_cloud = λ c. record c { cloud_value = c.value };
    append_attributes_to_cloud =
        λ p e. let (err, e', n) = append_attributes_to_cloud t p e in (err, e');
    set_attributes_from_cloud = set_attributes_from_cloud d;
    is_primitive = λ c. false;
    is_changed_locally = λ c. false;
  }

schedule_eq_refl : (s : Schedule) → schedule_eq s s ≡ true
schedule_eq_refl s = rw (
  (==_iff s.frm s.frm).1 refl,
  (==_iff s.to s.to).1 refl,
  (==_iff s.len s.len).1 refl,
  (==_iff s.msk s.msk).1 refl,
)

module _ {D E F G : Type 0} (t : MapEncoder E F) (d : Doubles F G) where
  -- After a value has gone either way the two agree.
  pub methods-IsFaithful : IsFaithful {D = D} (methods t d)
  methods-IsFaithful = record {
    published = λ delta c. ap not (schedule_eq_refl c.value);
    accepted = λ delta c. ap not (schedule_eq_refl c.cloud_value);
  }

-- The timezone data are the same after `getTime`.
get_time-zone :
    (w : Sources) (s : TimeService) → (get_time w s).1.is_tz_configured ≡ s.is_tz_configured
unfolding get_time sync set_time
get_time-zone w s =
    let HasZone = λ (x : TimeService). x.is_tz_configured ≡ s.is_tz_configured in
    let s' = if is_sync_due w s then (sync w s).1 else s in
    let synced : HasZone (sync w s).1 =
      if_both (λ (r : Bool × TimeService). HasZone r.1)
        (is_time_valid w.compile_time (source_time w s)) _ _ refl refl in
    let kept : HasZone s' = if_both HasZone (is_sync_due w s) (sync w s).1 s synced refl in
    if_both (λ (r : ℕ × TimeService). HasZone r.1) (nonzero s'.last_sync_tick) _ _ kept kept

-- Until timezone data are set no schedule is active, whatever the time is.
pub is_active-unset :
    (gmtime : ℕ → CalendarDay) (w : Sources) (s : Schedule) (service : TimeService)
    → service.is_tz_configured ≡ false
    → (is_active gmtime w s service).0 ≡ some false
unfolding is_active get_local_time is_active_at
is_active-unset gmtime w s service h =
    let r = get_time w service in
    ap (λ b. is_active_at gmtime (if b then add_offset r.0 r.1.timezone_offset else epoch) s)
      (get_time-zone w service ∙ h)
