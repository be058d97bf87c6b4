-- ===== src/Property/Policy.antt =====
-- When a property of src/property/Property.cpp asks to be sent.
use arduino_io_tcloud.Common.{
  ℕ, ◌≡◌, ◌≢◌, refl, ap, ◌∙◌, Bool, true, false, not, ◌&&◌, if◌then◌else◌, leb,
}
use arduino_io_tcloud.Property.{
  Property, Methods, CborError, no_error, out_of_memory, split_items, other_error, UpdatePolicy,
  on_change, time_interval, on_demand, elapsed, append, append_completed, should_be_updated,
  after_append, policy_asks,
}

-- What a class may promise, as the wrapper of an int and the schedule do: a value that was just taken
-- over, in either direction, does not differ from the cloud's.
pub record IsFaithful {V D E M : Type 0} (m : Methods V D E M) : Type 0 where
  pub published : (d : D) (v : V) → m.is_different_from_cloud d (m.from_local_to_cloud v) ≡ false
  pub accepted : (d : D) (v : V) → m.is_different_from_cloud d (m.from_cloud_to_local v) ≡ false

-- What a policy asks for, `t` milliseconds after a message, of a value that differs from the cloud's
-- or not.
abbrev pub asks_after : UpdatePolicy → Bool → ℕ → ℕ → ℕ → Bool
asks_after on_change differs pause interval t = differs && leb pause t
asks_after time_interval differs pause interval t = leb interval t
asks_after on_demand differs pause interval t = false

module _ {V D E M : Type 0} (m : Methods V D E M) where
  policy_asks-sent :
      (later : ℕ) (a : UpdatePolicy) (p : Property V D)
      → p.update_requested ≡ false
      → policy_asks m later a p
        ≡ asks_after a
            (m.is_different_from_cloud p.min_delta_property p.value)
            p.min_time_between_updates_millis
            p.update_interval_millis
            (elapsed later p.last_updated_millis)
  policy_asks-sent later on_change p r = refl
  policy_asks-sent later time_interval p r = refl
  policy_asks-sent later on_demand p r = r

  policy_asks-light :
      (later : ℕ) (a : UpdatePolicy) (light : Bool) (p : Property V D)
      → policy_asks m later a (record p { light_payload = light }) ≡ policy_asks m later a p
  policy_asks-light later on_change light p = refl
  policy_asks-light later time_interval light p = refl
  policy_asks-light later on_demand light p = refl

  after_append-error :
      (now : ℕ) (p : Property V D) (err : CborError) → err ≢ no_error → after_append m now p err ≡ p
  after_append-error now p no_error h = absurd (h refl)
  after_append-error now p out_of_memory h = refl
  after_append-error now p split_items h = refl
  after_append-error now p (other_error n) h = refl

  -- A property that was sent, and whose message was completed, holds the value that was sent as the
  -- cloud's. If nothing but its value has changed since, it asks to be sent again exactly if its
  -- policy does: on change, if the value `v` it has then differs from the cloud's in the test of its
  -- class and the minimal time has passed since it was sent; at intervals, if the interval has passed since it was sent; on demand, never.
  pub should_be_updated-append :
      (now later : ℕ) (light : Bool) (p : Property V D) (e : E) (v : V)
      → (append m now light p e).0 ≡ no_error
      → let sent = append_completed (append m now light p e).1 in
        (sent.value ≡ m.from_local_to_cloud p.value)
        × (should_be_updated m later (record sent { value = v })
            ≡ asks_after p.update_policy
                (m.is_different_from_cloud p.min_delta_property v)
                p.min_time_between_updates_millis
                p.update_interval_millis
                (elapsed later now))
  unfolding append append_completed should_be_updated
  should_be_updated-append now later light p e v h =
      let q = record p { light_payload = light } in
      let sent = record (after_append m now q no_error) {
        has_been_appended_but_not_sended = false;
        value = v;
      } in
      (
        ap (λ err. (append_completed (after_append m now q err)).value) h,
        ap
              (λ err.
                should_be_updated m later
                  (record (append_completed (after_append m now q err)) { value = v }))
              h
            ∙ policy_asks-sent later p.update_policy sent refl,
      )

  -- Until the message is completed it asks to be sent again.
  pub should_be_updated-unsent :
      (now later : ℕ) (light : Bool) (p : Property V D) (e : E)
      → (append m now light p e).0 ≡ no_error
      → should_be_updated m later (append m now light p e).1 ≡ true
  unfolding append should_be_updated
  should_be_updated-unsent now later light p e h =
      ap
        (λ err.
          should_be_updated m later (after_append m now (record p { light_payload = light }) err))
        h

  -- If encoding fails, it asks as it did before.
  pub should_be_updated-error :
      (now later : ℕ) (light : Bool) (p : Property V D) (e : E)
      → (append m now light p e).0 ≢ no_error
      → should_be_updated m later (append m now light p e).1 ≡ should_be_updated m later p
  unfolding append should_be_updated
  should_be_updated-error now later light p e h =
      let q = record p { light_payload = light } in
      ap (should_be_updated m later)
        (after_append-error now q (m.append_attributes_to_cloud q e).0 h)
      ∙ ap
          (λ asks.
            if not p.has_been_updated_once
            then true
            else if p.has_been_appended_but_not_sended
            then true
            else if p.has_been_modified_in_callback
            then true
            else if p.echo_requested
            then true
            else asks)
          (policy_asks-light later p.update_policy light p)
