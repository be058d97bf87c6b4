-- ===== src/Thing/Answered.antt =====
-- How src/ArduinoIoTCloudThing.cpp counts the requests for the last values that are answered.
use arduino_io_tcloud.Common.{
  suc, ◌≡◌, ◌≤◌, refl, sym, ap, ◌∙◌, Bool, true, false, not, ◌&&◌, none, some, ltb, if◌then◌else◌,
}
use arduino_io_tcloud.Messages.{message, last_values_update_cmd_id, last_values_begin_cmd_id}
use arduino_io_tcloud.TimedAttempt.{is_retry, is_expired, retry}
use arduino_io_tcloud.Property.{Methods}
use arduino_io_tcloud.Container.{PropertyContainer}
use arduino_io_tcloud.Thing.{
  Thing, State, Clock, request_last_values, connected, disconnect, handle_message, run_state,
  handle_command, deliver, lastvalues_sync_max_retry_cnt,
}
use arduino_io_tcloud.Thing.Unanswered.{is_due, request-again}

module _ {V D E M : Type 0} (m : Methods V D E M) where
  not-false : (b : Bool) → not b ≡ false → b ≡ true
  not-false true h = refl
  not-false false h = sym h

  -- The answer comes before the next request is due.
  answer-connected :
      (now : Clock) (t : Thing (PropertyContainer V D))
      → t.state ≡ request_last_values
      → is_due m now t ≡ false
      → handle_message m now (some (message last_values_update_cmd_id)) t
        ≡ record t { state = connected }
  unfolding handle_message run_state handle_command
  answer-connected now t s d =
      let sent =
        deliver last_values_begin_cmd_id
          (record t { sync_attempt = retry now.millis t.sync_attempt }) in
      let id = last_values_update_cmd_id in
      let finish = λ (x : State × Thing (PropertyContainer V D)). record (x.1) { state = x.0 } in
      ap (λ (st : State). finish (handle_command m id st (run_state m now st t))) s
      ∙ ap
          (λ b. finish (
            handle_command m id request_last_values (
              if b
              then (request_last_values, t)
              else if ltb lastvalues_sync_max_retry_cnt t.sync_attempt.retry_count
              then (disconnect, t)
              else (request_last_values, sent))))
          (not-false (is_retry t.sync_attempt && not (is_expired now.millis t.sync_attempt)) d)

  -- An answer to a request for the last values, before the next request is due, connects the thing,
  -- and does not take the request off the count that is limited: it is one higher than before.
  pub answered-count :
      (now later : Clock) (t : Thing (PropertyContainer V D))
      → t.state ≡ request_last_values
      → is_due m now t ≡ true
      → t.sync_attempt.retry_count ≤ lastvalues_sync_max_retry_cnt
      → is_due m later (handle_message m now none t) ≡ false
      → let u =
          handle_message m later
            (some (message last_values_update_cmd_id))
            (handle_message m now none t) in
        (u.state ≡ connected) × (u.sync_attempt.retry_count ≡ suc t.sync_attempt.retry_count)
  answered-count now later t s d h e =
      let r = request-again m now t s d h in
      let a = answer-connected later (handle_message m now none t) r.0 e in
      (
        ap (λ (z : Thing (PropertyContainer V D)). z.state) a,
        ap (λ (z : Thing (PropertyContainer V D)). z.sync_attempt.retry_count) a ∙ r.1,
      )
