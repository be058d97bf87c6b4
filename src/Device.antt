-- ===== src/Device.antt =====
-- src/ArduinoIoTCloudDevice.{h,cpp}: the process that registers the device and waits to be attached
-- to a thing. `delivered` logs the ids of the messages sent upstream; `now` is `millis()`.
pub mod Attach
use arduino_io_tcloud.Common.{
  ℕ, ◌*◌, Bool, true, false, not, ◌&&◌, Option, none, some, List, ◌∷◌, ltb, if◌then◌else◌,
}
use arduino_io_tcloud.Messages.{
  CommandId, device_begin_cmd_id, thing_begin_cmd_id, device_registered_cmd_id,
  device_attached_cmd_id, device_detached_cmd_id, reset_cmd_id, unknown_cmd_id,
}
use arduino_io_tcloud.TimedAttempt
use arduino_io_tcloud.TimedAttempt.{TimedAttempt, retry, reconfigure, is_expired}

-- AIOT_CONFIG_THING_ID_REQUEST_RETRY_DELAY_ms and its siblings, for a TCP connection.
abbrev pub request_retry_delay_ms : ℕ
request_retry_delay_ms = 2000

abbrev pub max_request_retry_delay_ms : ℕ
max_request_retry_delay_ms = 32000

abbrev pub request_max_retry_cnt : ℕ
request_max_retry_cnt = 10

abbrev pub registered_retry_delay_k : ℕ
registered_retry_delay_k = 10

abbrev pub max_registered_retry_delay_k : ℕ
max_registered_retry_delay_k = 40

pub data State : Type 0 where
  disconnected init send_capabilities connected : State

pub record Device : Type 0 where
  pub state : State
  pub attach_attempt : TimedAttempt
  pub attached : Bool
  pub registered : Bool
  pub delivered : List CommandId

-- `connected()`.
abbrev pub is_connected : State → Bool
is_connected disconnected = false
is_connected _ = true

unfoldable pub begin : Device → Device
begin d = record d {
  attach_attempt =
      TimedAttempt.begin d.attach_attempt request_retry_delay_ms max_request_retry_delay_ms;
}

unfoldable pub handle_init : Device → State × Device
handle_init d = (
  send_capabilities,
  record d {
    attach_attempt =
        TimedAttempt.begin d.attach_attempt request_retry_delay_ms max_request_retry_delay_ms;
    attached = false;
    registered = false;
  },
)

unfoldable pub handle_send_capabilities : ℕ → Device → State × Device
handle_send_capabilities now d = (
  connected,
  record d {
    delivered = thing_begin_cmd_id ∷ device_begin_cmd_id ∷ d.delivered;
    attach_attempt = retry now d.attach_attempt;
  },
)

-- A registered device that is not attached waits ten times as long.
unfoldable pub slow_down : ℕ → Device → Device
slow_down now d = record d {
  attach_attempt =
      reconfigure now d.attach_attempt (request_retry_delay_ms * registered_retry_delay_k)
        (max_request_retry_delay_ms * max_registered_retry_delay_k);
}

unfoldable pub handle_connected : ℕ → Device → State × Device
unfolding slow_down
handle_connected now d =
    if ltb request_max_retry_cnt d.attach_attempt.retry_count
    then (disconnected, d)
    else if not d.attached && is_expired now d.attach_attempt
    then (send_capabilities, if d.registered then slow_down now d else d)
    else (connected, d)

unfoldable pub run_state : ℕ → State → Device → State × Device
unfolding handle_init handle_send_capabilities handle_connected
run_state now init d = handle_init d
run_state now send_capabilities d = handle_send_capabilities now d
run_state now connected d = handle_connected now d
run_state now disconnected d = (disconnected, d)

unfoldable pub handle_command : CommandId → State × Device → State × Device
handle_command device_attached_cmd_id (next, d) =
    (connected, record d { attached = true; registered = true })
handle_command device_detached_cmd_id (next, d) =
    (init, record d { attached = false; registered = false })
handle_command device_registered_cmd_id (next, d) = (connected, record d { registered = true })
handle_command reset_cmd_id (next, d) = (init, d)
handle_command _ (next, d) = (next, d)

abbrev pub settle : State × Device → Device
settle (next, d) = record d { state = next }

-- `handleMessage`, of whose message only the id is read; `update` passes no message.
unfoldable pub handle_message : ℕ → Option CommandId → Device → Device
unfolding run_state handle_command
handle_message now none d = settle (handle_command unknown_cmd_id (run_state now d.state d))
handle_message now (some c) d = settle (handle_command c (run_state now d.state d))
