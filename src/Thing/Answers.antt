-- ===== src/Thing/Answers.antt =====
-- What src/ArduinoIoTCloudThing.cpp makes of the cloud's messages.
use arduino_io_tcloud.Common.{
  ℕ, ◌≡◌, ◌≢◌, refl, ap, ◌∙◌, ◌⊎◌, true, ◌||◌, Option, some, ltb, ◌&&◌, not, arith, if_both,
}
use arduino_io_tcloud.Messages.{Message, reset_cmd_id, timezone_command_down_id}
use arduino_io_tcloud.Property.{Methods}
use arduino_io_tcloud.Container.{PropertyContainer, update_timestamp_on_locally_changed_properties}
use arduino_io_tcloud.TimedAttempt.{is_retry, is_expired}
use arduino_io_tcloud.Thing.{
  lastvalues_sync_max_retry_cnt, Thing, State, Clock, init, request_last_values, connected,
  disconnect, handle_message, handle_connected, run_state, take_timezone, update_timezone, differs,
}

abbrev pub timezone_down : ℕ → ℕ → Option Message
timezone_down offset until =
    some (record { id = timezone_command_down_id; offset = offset; until = until })

module _ {V D E M : Type 0} (m : Methods V D E M) where
  -- The member variables of the timezone.
  abbrev zone : Thing (PropertyContainer V D) → ℕ × ℕ
  zone t = (t.utc_offset.primitive_value, t.utc_offset_expire_time.primitive_value)

  -- A reset leads to `init` from every state.
  pub handle_message-reset :
      (now : Clock) (t : Thing (PropertyContainer V D)) (offset until : ℕ)
      → (handle_message m now
          (some (record { id = reset_cmd_id; offset = offset; until = until }))
          t).state
        ≡ init
  unfolding handle_message
  handle_message-reset now t offset until = refl

  run_state-zone :
      (now : Clock) (s : State) (t : Thing (PropertyContainer V D))
      → s ≢ connected
      → zone (run_state m now s t).1 ≡ zone t
  unfolding run_state
  run_state-zone now init t h = refl
  run_state-zone now request_last_values t h =
      let Same = λ (x : State × Thing (PropertyContainer V D)). zone x.1 ≡ zone t in
      if_both Same (is_retry t.sync_attempt && not (is_expired now.millis t.sync_attempt))
        (request_last_values, t) _ refl
        (if_both Same (ltb lastvalues_sync_max_retry_cnt t.sync_attempt.retry_count) (disconnect, t)
          _ refl refl)
  run_state-zone now connected t h = absurd (h refl)
  run_state-zone now disconnect t h = refl

  update_timezone-zone :
      (t : Thing (PropertyContainer V D))
      → differs t.utc_offset || differs t.utc_offset_expire_time ≡ true
      → zone (update_timezone t) ≡ (t.utc_offset.cloud_value, t.utc_offset_expire_time.cloud_value)
  unfolding update_timezone
  update_timezone-zone t d = rw d

  abbrev retimed : Thing (PropertyContainer V D) → ℕ → ℕ → Thing (PropertyContainer V D)
  retimed t offset until =
      take_timezone m timezone_command_down_id
        (record { id = timezone_command_down_id; offset = offset; until = until }) t

  -- A timezone command reaches the time service in every state but `connected`.
  pub timezone_down-taken :
      (now : Clock) (t : Thing (PropertyContainer V D)) (offset until : ℕ)
      → t.state ≢ connected
      → (handle_message m now (timezone_down offset until) t).timezone ≡ some (offset, until)
  unfolding handle_message
  timezone_down-taken now t offset until h =
      ap some (run_state-zone now t.state (retimed t offset until) h)

  -- In `connected` it is lost if it differs from what the timezone properties hold: the time
  -- service is given those.
  pub timezone_down-lost :
      (now : Clock) (t : Thing (PropertyContainer V D)) (offset until : ℕ)
      → t.state ≡ connected
      → (offset ≢ t.utc_offset.cloud_value) ⊎ (until ≢ t.utc_offset_expire_time.cloud_value)
      → (handle_message m now (timezone_down offset until) t).timezone
        ≡ some (t.utc_offset.cloud_value, t.utc_offset_expire_time.cloud_value)
  unfolding handle_message handle_connected
  timezone_down-lost now t offset until s h =
      let u = retimed t offset until in
      let c = update_timestamp_on_locally_changed_properties m now.time u.container in
      let other : differs u.utc_offset || differs u.utc_offset_expire_time ≡ true = ground arith in
      ap some (
        ap (λ (x : State). zone (run_state m now x u).1) s
        ∙ update_timezone-zone (record u { container = c }) other)
