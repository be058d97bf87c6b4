-- ===== src/Device/Attach.antt =====
-- How src/ArduinoIoTCloudDevice.cpp comes to be attached, or gives up.
use mathlib.Core.Path.{subst}
use native.Mathlib.Nat.{pow-le-pow_right}
use arduino_io_tcloud.Common.{
  ℕ, suc, ◌*◌, ◌^◌, ◌≤◌, ◌<◌, ◌≡◌, refl, sym, ap, ◌∙◌, true, false, Option, none, some, ◌∷◌, ltb,
  arith, min, not, ◌||◌,
}
use arduino_io_tcloud.Messages.{
  CommandId, device_registered_cmd_id, device_attached_cmd_id, device_detached_cmd_id, reset_cmd_id,
  unknown_cmd_id, thing_begin_cmd_id, device_begin_cmd_id,
}
use arduino_io_tcloud.TimedAttempt.{is_expired, retry, reconfigure}
use arduino_io_tcloud.TimedAttempt.Backoff.{Retried, retry-delay_fits}
use arduino_io_tcloud.Device.{
  Device, State, disconnected, init, send_capabilities, connected, handle_message, run_state,
  handle_command, handle_connected, slow_down, settle, request_max_retry_cnt,
}

-- An attached device counts as registered.
abbrev pub IsConsistent : Device → Type 0
IsConsistent d = (not d.attached || d.registered) ≡ true

run_state-IsConsistent :
    (now : ℕ) (s : State) (d : Device) → IsConsistent d → IsConsistent (run_state now s d).1
unfolding run_state slow_down
run_state-IsConsistent now init d h = refl
run_state-IsConsistent now send_capabilities d h = h
run_state-IsConsistent now connected d h = ground arith
run_state-IsConsistent now disconnected d h = h

handle_command-IsConsistent :
    (c : CommandId) (r : State × Device) → IsConsistent r.1 → IsConsistent (handle_command c r).1
unfolding handle_command
handle_command-IsConsistent device_attached_cmd_id (next, d) h = refl
handle_command-IsConsistent device_detached_cmd_id (next, d) h = refl
handle_command-IsConsistent device_registered_cmd_id (next, d) h = ground arith
handle_command-IsConsistent reset_cmd_id (next, d) h = h
handle_command-IsConsistent _ (next, d) h = h

-- Every message and every update keeps that.
pub handle_message-IsConsistent :
    (now : ℕ) (msg : Option CommandId) (d : Device)
    → IsConsistent d
    → IsConsistent (handle_message now msg d)
unfolding handle_message
handle_message-IsConsistent now none d h =
    handle_command-IsConsistent unknown_cmd_id (run_state now d.state d)
      (run_state-IsConsistent now d.state d h)
handle_message-IsConsistent now (some c) d h =
    handle_command-IsConsistent c (run_state now d.state d) (run_state-IsConsistent now d.state d h)

expired-registered :
    (now : ℕ) (d : Device)
    → d.state ≡ connected
    → d.attached ≡ false
    → d.registered ≡ true
    → is_expired now d.attach_attempt ≡ true
    → d.attach_attempt.retry_count ≤ request_max_retry_cnt
    → run_state now d.state d ≡ (send_capabilities, slow_down now d)
unfolding run_state
expired-registered now d s a r x k =
    let within : ltb request_max_retry_cnt d.attach_attempt.retry_count ≡ false = ground arith in
    ap (λ (y : State). run_state now y d) s ∙ rw (within, handle_connected) (rw (a, x, r))

slow_down-Retried :
    (now : ℕ) (d : Device)
    → Retried 20000 1280000 d.attach_attempt.retry_count (slow_down now d).attach_attempt
unfolding slow_down reconfigure
slow_down-Retried now d = record { same_min = refl; same_max = refl; counted = refl }

-- `e` is `d` after one more announcement, at the slower pace.
pub record Announced (d e : Device) : Type 0 where
  pub waiting : e.state ≡ connected
  pub counted : e.attach_attempt.retry_count ≡ suc d.attach_attempt.retry_count
  pub delayed :
      e.attach_attempt.retry_delay ≡ min (2 ^ suc d.attach_attempt.retry_count * 20000) 1280000
  pub sent : e.delivered ≡ thing_begin_cmd_id ∷ device_begin_cmd_id ∷ d.delivered

slow-Announced :
    (now later : ℕ) (d : Device)
    → d.attach_attempt.retry_count ≤ request_max_retry_cnt
    → Announced d (handle_message later none (settle (send_capabilities, slow_down now d)))
unfolding handle_message slow_down reconfigure retry
slow-Announced now later d k =
    let n = d.attach_attempt.retry_count in
    let pow = pow-le-pow_right {n = 2} (omega arith) {i = suc n} {j = 11} (omega arith) in
    record {
      waiting = refl;
      counted = omega arith;
      delayed =
          retry-delay_fits later 20000 1280000 n (slow_down now d).attach_attempt (omega arith)
            (omega arith) (slow_down-Retried now d);
      sent = refl;
    }

-- A device that is registered and not attached, with at most ten attempts counted: when its timer
-- has run out, two updates with no message announce it again, with the wait of the slower pace, 20 s
-- doubled with each attempt up to 1280 s, and count one more attempt.
pub registered-Announced :
    (now later : ℕ) (d : Device)
    → d.state ≡ connected
    → d.attached ≡ false
    → d.registered ≡ true
    → is_expired now d.attach_attempt ≡ true
    → d.attach_attempt.retry_count ≤ request_max_retry_cnt
    → Announced d (handle_message later none (handle_message now none d))
unfolding handle_message
registered-Announced now later d s a r x k =
    subst (λ e. Announced d (handle_message later none e))
      (sym (ap settle (expired-registered now d s a r x k))) (slow-Announced now later d k)

-- After eleven attempts the next update disconnects, attached or not.
pub attempts-disconnected :
    (now : ℕ) (d : Device)
    → d.state ≡ connected
    → request_max_retry_cnt < d.attach_attempt.retry_count
    → handle_message now none d ≡ record d { state = disconnected }
unfolding handle_message handle_connected
attempts-disconnected now d s k =
    let beyond : ltb request_max_retry_cnt d.attach_attempt.retry_count ≡ true = ground arith in
    let over : handle_connected now d ≡ (disconnected, d) = rw (beyond, handle_connected) in
    ap settle (ap (λ (y : State). run_state now y d) s ∙ over)
