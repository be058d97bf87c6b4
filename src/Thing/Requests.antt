-- ===== src/Thing/Requests.antt =====
-- How often src/ArduinoIoTCloudThing.cpp asks for the last values before it gives up.
use mathlib.Core.Path.{subst}
use arduino_io_tcloud.Common.{
  ℕ, suc, ◌≤◌, ◌≡◌, refl, sym, ap, inl, inr, ◌||◌, Bool-cases, Option, none, some, arith,
}
use arduino_io_tcloud.Messages.{
  CommandId, Message, last_values_update_cmd_id, reset_cmd_id, timezone_command_down_id,
}
use arduino_io_tcloud.TimedAttempt.{TimedAttempt, retry, begin_fixed}
use arduino_io_tcloud.Property.{Methods}
use arduino_io_tcloud.Container.{PropertyContainer, update_timestamp_on_locally_changed_properties}
use arduino_io_tcloud.Thing.{
  Thing, State, Clock, init, request_last_values, connected, disconnect, handle_message, run_state,
  handle_command, lastvalues_sync_max_retry_cnt, take_timezone, update_timezone, differs,
}

-- The attempts are within the limit, except before the first `begin`.
abbrev pub WithinLimit : State → ℕ → Type 0
WithinLimit init n = Unit {0}
WithinLimit _ n = n ≤ suc lastvalues_sync_max_retry_cnt

within_of_le : (s : State) (n : ℕ) → n ≤ suc lastvalues_sync_max_retry_cnt → WithinLimit s n
within_of_le init n h = tt
within_of_le disconnect n h = h
within_of_le request_last_values n h = h
within_of_le connected n h = h

update_timezone-attempt :
    {C : Type 0} (t : Thing C) → (update_timezone t).sync_attempt ≡ t.sync_attempt
unfolding update_timezone
update_timezone-attempt t =
    elim (Bool-cases (differs t.utc_offset || differs t.utc_offset_expire_time)) [
      | inl e ↦ rw e
      | inr e ↦ rw e
    ]

module _ {V D E M : Type 0} (m : Methods V D E M) where
  abbrev pub IsBounded : Thing (PropertyContainer V D) → Type 0
  IsBounded t = WithinLimit t.state t.sync_attempt.retry_count

  run_state-le :
      (now : Clock) (s : State) (t : Thing (PropertyContainer V D))
      → WithinLimit s t.sync_attempt.retry_count
      → (run_state m now s t).1.sync_attempt.retry_count ≤ suc lastvalues_sync_max_retry_cnt
  unfolding run_state retry begin_fixed
  run_state-le now init t h = omega arith
  run_state-le now request_last_values t h = ground arith
  run_state-le now connected t h =
      let c = update_timestamp_on_locally_changed_properties m now.time t.container in
      omega (
        arith,
        ap (λ (a : TimedAttempt). a.retry_count)
            (update_timezone-attempt (record t { container = c })),
      )
  run_state-le now disconnect t h = h

  handle_command-attempt :
      (c : CommandId) (before : State) (r : State × Thing (PropertyContainer V D))
      → (handle_command m c before r).1.sync_attempt ≡ r.1.sync_attempt
  unfolding handle_command
  handle_command-attempt last_values_update_cmd_id request_last_values (next, t) = refl
  handle_command-attempt timezone_command_down_id before (next, t) = refl
  handle_command-attempt reset_cmd_id before (next, t) = refl
  handle_command-attempt _ before (next, t) = refl

  take_timezone-attempt :
      (c : CommandId) (msg : Message) (t : Thing (PropertyContainer V D))
      → (take_timezone m c msg t).sync_attempt ≡ t.sync_attempt
  take_timezone-attempt timezone_command_down_id msg t = refl
  take_timezone-attempt _ msg t = refl

  -- Whatever arrives, the requests since the last `begin` stay within the limit.
  pub handle_message-IsBounded :
      (now : Clock) (msg : Option Message) (t : Thing (PropertyContainer V D))
      → IsBounded t
      → IsBounded (handle_message m now msg t)
  unfolding handle_message
  handle_message-IsBounded now none t h =
      within_of_le (run_state m now t.state t).0 _ (run_state-le now t.state t h)
  handle_message-IsBounded now (some msg) t h =
      let u = take_timezone m msg.id msg t in
      let same = take_timezone-attempt msg.id msg t in
      let h' = subst (λ (a : TimedAttempt). WithinLimit t.state a.retry_count) (sym same) h in
      let r = run_state m now t.state u in
      let bound = run_state-le now t.state u h' in
      within_of_le (handle_command m msg.id t.state r).0 _ (
        subst (λ (a : TimedAttempt). a.retry_count ≤ suc lastvalues_sync_max_retry_cnt)
          (sym (handle_command-attempt msg.id t.state r)) bound)
