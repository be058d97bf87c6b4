-- ===== src/Thing.antt =====
-- src/ArduinoIoTCloudThing.{h,cpp}: the process that brings a thing's properties in step with the
-- cloud. The two timezone properties are their `CloudWrapper…` values, whose primitive is the
-- member variable (the offset, an `int`, as its 32-bit pattern); the user's properties are the
-- container. What the process does outside is kept in the logs `delivered` (the ids sent upstream)
-- and `timezone` (what `TimeService` was last given).
-- `millis()` and `getTime()` are the fields of a `Clock`.
pub mod Requests
pub mod Unanswered
pub mod Answers
pub mod Answered
use arduino_io_tcloud.Common.{
  ℕ, ◌+◌, Bool, true, false, not, ◌&&◌, ◌||◌, Option, none, some, List, [], ◌∷◌, ltb, ◌==◌,
  if◌then◌else◌,
}
use arduino_io_tcloud.Messages.{
  CommandId, Message, last_values_begin_cmd_id, last_values_update_cmd_id, properties_update_cmd_id,
  reset_cmd_id, timezone_command_down_id, unknown_cmd_id,
}
use arduino_io_tcloud.TimedAttempt.{TimedAttempt, begin_fixed, retry, is_retry, is_expired}
use arduino_io_tcloud.Property.{Methods}
use arduino_io_tcloud.Container.{PropertyContainer, update_timestamp_on_locally_changed_properties}

-- AIOT_CONFIG_TIMEOUT_FOR_LASTVALUES_SYNC_ms, AIOT_CONFIG_LASTVALUES_SYNC_MAX_RETRY_CNT.
abbrev pub timeout_for_lastvalues_sync_ms : ℕ
timeout_for_lastvalues_sync_ms = 30000

abbrev pub lastvalues_sync_max_retry_cnt : ℕ
lastvalues_sync_max_retry_cnt = 10

pub data State : Type 0 where
  disconnect init request_last_values connected : State

pub record Wrapper : Type 0 where
  pub primitive_value : ℕ
  pub cloud_value : ℕ

pub record Clock : Type 0 where
  pub millis : ℕ
  pub time : ℕ

pub record Thing (C : Type 0) : Type 0 where
  pub state : State
  pub sync_attempt : TimedAttempt
  pub container : C
  pub utc_offset : Wrapper
  pub utc_offset_expire_time : Wrapper
  pub delivered : List CommandId
  pub timezone : Option (ℕ × ℕ)

-- `isDifferentFromCloud` of the integer wrappers, whose minimal delta is 0, and `fromCloudToLocal`.
abbrev pub differs : Wrapper → Bool
differs w = not (w.primitive_value == w.cloud_value)

abbrev pub accept : Wrapper → Wrapper
accept w = record w { primitive_value = w.cloud_value }

-- `_state > State::Disconnect`.
abbrev pub is_connected : State → Bool
is_connected disconnect = false
is_connected _ = true

module _ {C : Type 0} where
  abbrev pub deliver : CommandId → Thing C → Thing C
  deliver c t = record t { delivered = c ∷ t.delivered }

  abbrev pub set_time_zone_data : Thing C → Thing C
  set_time_zone_data t = record t {
    timezone = some (t.utc_offset.primitive_value, t.utc_offset_expire_time.primitive_value);
  }

  unfoldable pub handle_init : Thing C → State × Thing C
  handle_init t = (
    request_last_values,
    record t { sync_attempt = begin_fixed t.sync_attempt timeout_for_lastvalues_sync_ms },
  )

  unfoldable pub handle_request_last_values : Clock → Thing C → State × Thing C
  handle_request_last_values now t =
      if is_retry t.sync_attempt && not (is_expired now.millis t.sync_attempt)
      then (request_last_values, t)
      else if ltb lastvalues_sync_max_retry_cnt t.sync_attempt.retry_count
      then (disconnect, t)
      else (
        request_last_values,
        deliver last_values_begin_cmd_id
            (record t { sync_attempt = retry now.millis t.sync_attempt }),
      )

  unfoldable pub update_timezone : Thing C → Thing C
  update_timezone t =
      if differs t.utc_offset || differs t.utc_offset_expire_time
      then set_time_zone_data (record t {
        utc_offset = accept t.utc_offset;
        utc_offset_expire_time = accept t.utc_offset_expire_time;
      })
      else t

module _ {V D E M : Type 0} (m : Methods V D E M) where
  unfoldable pub handle_connected :
      Clock → Thing (PropertyContainer V D) → State × Thing (PropertyContainer V D)
  unfolding update_timezone
  handle_connected now t =
      let c = update_timestamp_on_locally_changed_properties m now.time t.container in
      let t' = deliver properties_update_cmd_id (update_timezone (record t { container = c })) in
      (
        (if ltb t'.utc_offset_expire_time.primitive_value now.time
            then request_last_values
            else connected),
        t',
      )

  unfoldable pub run_state :
      Clock → State → Thing (PropertyContainer V D) → State × Thing (PropertyContainer V D)
  unfolding handle_init handle_request_last_values handle_connected
  run_state now init t = handle_init t
  run_state now request_last_values t = handle_request_last_values now t
  run_state now connected t = handle_connected now t
  run_state now disconnect t = (disconnect, t)

  -- The switch on the command, given the state before it; the result of the state's handler is
  -- overruled.
  unfoldable pub handle_command :
      CommandId
      → State
      → State × Thing (PropertyContainer V D)
      → State × Thing (PropertyContainer V D)
  handle_command last_values_update_cmd_id request_last_values (next, t) = (connected, t)
  handle_command timezone_command_down_id before (next, t) = (next, set_time_zone_data t)
  handle_command reset_cmd_id before (next, t) = (init, t)
  handle_command _ before (next, t) = (next, t)

  abbrev pub take_timezone :
      CommandId → Message → Thing (PropertyContainer V D) → Thing (PropertyContainer V D)
  take_timezone timezone_command_down_id msg t = record t {
    utc_offset = record (t.utc_offset) { primitive_value = msg.offset };
    utc_offset_expire_time = record (t.utc_offset_expire_time) { primitive_value = msg.until };
  }
  take_timezone _ msg t = t

  abbrev pub step :
      Clock → Message → Thing (PropertyContainer V D) → State × Thing (PropertyContainer V D)
  step now msg t =
      handle_command msg.id t.state (run_state now t.state (take_timezone msg.id msg t))

  -- `handleMessage`; `update` is `none`, the null pointer, for which the command is unknown.
  unfoldable pub handle_message :
      Clock → Option Message → Thing (PropertyContainer V D) → Thing (PropertyContainer V D)
  unfolding run_state handle_command
  handle_message now (some msg) t = let (next, t') = step now msg t in record t' { state = next }
  handle_message now none t = let (next, t') = run_state now t.state t in record t' { state = next }
