-- ===== src/Tcp/States.antt =====
-- The state machine of `ArduinoIoTCloudTCP::update` in src/ArduinoIoTCloudTCP.cpp.
use Prim.Native.String.{String}
use arduino_io_tcloud.Common.{
  ℕ, false, not, ◌&&◌, ◌||◌, none, some, List, [], ◌∷◌, length, ltb, if◌then◌else◌,
}
use arduino_io_tcloud.Messages.{message, reset_cmd_id}
use arduino_io_tcloud.TimedAttempt.{begin, retry, is_retry, is_expired}
use arduino_io_tcloud.Property.{Methods}
use arduino_io_tcloud.Thing
use arduino_io_tcloud.Device
use arduino_io_tcloud.Tcp.{
  Connection, State, World, Codec, connect_phy, sync_time, connect_mqtt_broker, connected,
  disconnect, disconnect_event, write, run_device, run_thing,
}
use arduino_io_tcloud.Tcp.Commands.{Decoder, handle_message}

-- AIOT_CONFIG_RECONNECTION_RETRY_DELAY_ms, AIOT_CONFIG_MAX_RECONNECTION_RETRY_DELAY_ms.
abbrev pub reconnection_retry_delay_ms : ℕ
reconnection_retry_delay_ms = 1000

abbrev pub max_reconnection_retry_delay_ms : ℕ
max_reconnection_retry_delay_ms = 32000

module _ {V D : Type 0} where
  unfoldable pub handle_connect_phy : World → Connection V D → State × Connection V D
  handle_connect_phy w s =
      let a = s.connection_attempt in
      (
        (if w.network_connected && (not (is_retry a) || (is_retry a && is_expired w.clock.millis a))
            then sync_time
            else connect_phy),
        s,
      )

  unfoldable pub handle_sync_time : World → Connection V D → State × Connection V D
  handle_sync_time w s = (if w.time_synced then connect_mqtt_broker else connect_phy, s)

  unfoldable pub handle_connect_mqtt_broker : World → Connection V D → State × Connection V D
  handle_connect_mqtt_broker w s = if w.broker_connects then (connected, s) else (
    connect_phy,
    record s { connection_attempt = retry w.clock.millis s.connection_attempt },
  )

  unfoldable pub retransmit : World → Connection V D → Connection V D
  retransmit w s =
      if s.mqtt_data_request_retransmit && ltb 0 (length s.mqtt_data_buf)
      then record (write w s.data_topic_out s.mqtt_data_buf s) {
        mqtt_data_request_retransmit = false;
      }
      else s

  abbrev pub settle : State × Connection V D → Connection V D
  settle (next, s) = record s { state = next }

module _ {V D E M : Type 0} (m : Methods V D E M) (x : Codec E) (y : Decoder V D) where
  -- `_mqttClient.poll` calls `handleMessage` for the messages that have come in.
  abbrev pub poll : World → List (String × List ℕ) → Connection V D → Connection V D
  poll w [] s = s
  poll w (b ∷ bs) s = poll w bs (handle_message m x y w b s)

  unfoldable pub handle_connected :
      World → List (String × List ℕ) → Connection V D → State × Connection V D
  handle_connected w inbox s =
      if not w.mqtt_connected
        || (not (Thing.is_connected s.thing.state) || not (Device.is_connected s.device.state))
      then (disconnect, s)
      else let s' = run_device m x w none (retransmit w (poll w inbox s)) in
        (connected, if s'.device.attached then run_thing m x w none s' else s')

  unfoldable pub handle_disconnect : World → Connection V D → State × Connection V D
  handle_disconnect w s =
      let s' =
        run_device m x w (some reset_cmd_id) (run_thing m x w (some (message reset_cmd_id)) s) in
      (
        connect_phy,
        record s' {
          events = disconnect_event ∷ s'.events;
          connection_attempt =
              begin s'.connection_attempt reconnection_retry_delay_ms
                max_reconnection_retry_delay_ms;
        },
      )

  abbrev pub run_state :
      World → List (String × List ℕ) → State → Connection V D → State × Connection V D
  run_state w inbox connect_phy s = handle_connect_phy w s
  run_state w inbox sync_time s = handle_sync_time w s
  run_state w inbox connect_mqtt_broker s = handle_connect_mqtt_broker w s
  run_state w inbox connected s = handle_connected w inbox s
  run_state w inbox disconnect s = handle_disconnect w s

  -- `update`, in a world that answers in this way and with these messages in the client's queue.
  unfoldable pub update : World → List (String × List ℕ) → Connection V D → Connection V D
  update w inbox s = settle (run_state w inbox s.state s)
