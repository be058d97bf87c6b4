-- ===== src/Tcp.antt =====
-- src/ArduinoIoTCloudTCP.{h,cpp}: the connection process, built without OTA. It owns the device and
-- the thing process and the MQTT connection. What a call of the network libraries returns is a field
-- of `World`; the codecs of the commands and of property values are the fields of `Codec`.
pub mod Commands
pub mod States
pub mod Attachment
pub mod Sending
pub mod Reconnection
pub mod Backup
use Prim.Native.String.{String}
use mathlib.Core.List.{reverse}
use text.Mathlib.Text.{◌==◌ as str_eq}
use Prim.Native.String.{◌++◌ as str_append}
use arduino_io_tcloud.Common.{
  ℕ, ◌+◌, ◌*◌, Bool, true, false, not, ◌&&◌, Option, none, some, List, [], ◌∷◌, length, ltb,
  if◌then◌else◌,
}
use arduino_io_tcloud.Messages.{
  CommandId, Message, properties_update_cmd_id, device_attached_cmd_id, device_detached_cmd_id,
}
use arduino_io_tcloud.TimedAttempt.{TimedAttempt}
use arduino_io_tcloud.Property.{Methods, CborError, no_error}
use arduino_io_tcloud.Container.{PropertyContainer}
use arduino_io_tcloud.CborEncoder.{Tinycbor, Tally, PropertyContainerEncoder}
use arduino_io_tcloud.CborEncoder.Loop.{encode}
use arduino_io_tcloud.Thing
use arduino_io_tcloud.Thing.{Thing, Clock}
use arduino_io_tcloud.Device
use arduino_io_tcloud.Device.{Device}

pub data State : Type 0 where
  connect_phy sync_time connect_mqtt_broker connected disconnect : State

-- `execCloudEventCallback` is called with these.
pub data CloudEvent : Type 0 where
  connect_event sync_event disconnect_event : CloudEvent

-- `mqtt_data_buf` is the part that `_mqtt_data_len` counts. `thing.property_container` and its index
-- are what `getPropertyContainer` and `getPropertyContainerIndex` give. `published` and `events` log
-- the messages that the broker took and the events of the user's callback, newest first.
pub record Connection (V D : Type 0) : Type 0 where
  pub state : State
  pub connection_attempt : TimedAttempt
  pub thing : Thing (PropertyContainer V D)
  pub property_container_index : ℕ
  pub device : Device
  pub thing_id : String
  pub data_topic_in : String
  pub data_topic_out : String
  pub mqtt_data_buf : List ℕ
  pub mqtt_data_request_retransmit : Bool
  pub published : List (String × List ℕ)
  pub events : List CloudEvent

-- What the calls of the libraries return in one turn: `_connection->check`, `_time_service.sync`,
-- and `_mqttClient`'s `connect`, `connected`, `subscribe`, `unsubscribe` and its three of `write`.
pub record World : Type 0 where
  pub clock : Clock
  pub network_connected : Bool
  pub time_synced : Bool
  pub broker_connects : Bool
  pub mqtt_connected : Bool
  pub subscribes : Bool
  pub unsubscribes : Bool
  pub begins_message : Bool
  pub writes : Bool
  pub ends_message : Bool

-- `encode_message` is `CBORMessageEncoder::encode` where it completes; `buffer` reads `data`, of
-- which an encoder has filled some bytes; `message_topic_out` is `_messageTopicOut`.
pub record Codec (E : Type 0) : Type 0 where
  pub tinycbor : Tinycbor E
  pub encode_message : CommandId → Option (List ℕ)
  pub buffer : E → ℕ → List ℕ
  pub message_topic_out : String

abbrev pub no_thing_id : String
no_thing_id = "xxxxxxxx-xxxx-xxxx-xxxx-xxxxxxxxxxxx"

-- `getTopic_datain` and `getTopic_dataout`, by the last part.
abbrev pub topic : String → String → String
topic id end = if str_eq id "" then "" else str_append "/a/t/" (str_append id end)

abbrev pub mqtt_transmit_buffer_size : ℕ
mqtt_transmit_buffer_size = 256

module _ {V D : Type 0} where
  unfoldable pub write : World → String → List ℕ → Connection V D → Connection V D
  write w t payload s =
      if w.begins_message && (w.writes && w.ends_message)
      then record s { published = (t, payload) ∷ s.published }
      else s

module _ {V D E M : Type 0} (m : Methods V D E M) (x : Codec E) where
  -- The `PropertyContainerEncoder` that `encode` makes, whose other members are unset.
  abbrev pub coder : Connection V D → PropertyContainerEncoder V D E
  coder s = record {
    property_container = s.thing.container;
    current_property_index = s.property_container_index;
    encoded_property_limit = 0;
    property_limit_active = false;
    encoder = x.tinycbor.encoder_init 0;
    tally = record {
      encoded_property_count = 0;
      checked_property_count = 0;
      array_encoder = x.tinycbor.encoder_init 0;
    };
  }

  -- What `encode` changes through its references.
  abbrev pub take_over : PropertyContainerEncoder V D E → Connection V D → Connection V D
  take_over e s = record s {
    thing = record (s.thing) { container = e.property_container };
    property_container_index = e.current_property_index;
  }

  abbrev pub after_encode :
      World
      → Connection V D
      → Option (CborError × ℕ × PropertyContainerEncoder V D E)
      → Connection V D
  after_encode w s none = s
  after_encode w s (some (no_error, bytes, e)) =
      let s' = take_over e s in
      let payload = x.buffer e.encoder bytes in
      if ltb 0 bytes
      then write w s.data_topic_out payload (record s' { mqtt_data_buf = payload })
      else s'
  after_encode w s (some (_, bytes, e)) = take_over e s

  -- `encode` returns within this fuel.
  unfoldable pub send_property_container_to_cloud : World → Connection V D → Connection V D
  send_property_container_to_cloud w s = after_encode w s (
      encode m x.tinycbor false (6 * length s.thing.container + 13) mqtt_transmit_buffer_size
        (λ n. w.clock.millis) 0 (coder s))

  abbrev pub after_encode_message : World → Option (List ℕ) → Connection V D → Connection V D
  after_encode_message w none s = s
  after_encode_message w (some payload) s =
      if ltb 0 (length payload) then write w x.message_topic_out payload s else s

  -- `sendMessage`, to which the processes deliver their messages.
  unfoldable pub send_message : World → CommandId → Connection V D → Connection V D
  send_message w properties_update_cmd_id s = send_property_container_to_cloud w s
  send_message w c s = after_encode_message w (x.encode_message c) s

  abbrev pub send_all : World → List CommandId → Connection V D → Connection V D
  send_all w [] s = s
  send_all w (c ∷ cs) s = send_all w cs (send_message w c s)

  -- A call of the device process, and of the thing process: what it delivers is sent at once, and
  -- nothing of what it does afterwards depends on that.
  unfoldable pub run_device : World → Option CommandId → Connection V D → Connection V D
  run_device w msg s =
      let d = Device.handle_message w.clock.millis msg (record (s.device) { delivered = [] }) in
      send_all w (reverse d.delivered) (record s { device = record d { delivered = [] } })

  unfoldable pub run_thing : World → Option Message → Connection V D → Connection V D
  run_thing w msg s =
      let t = Thing.handle_message m w.clock msg (record (s.thing) { delivered = [] }) in
      send_all w (reverse t.delivered) (record s { thing = record t { delivered = [] } })

  unfoldable pub attach_thing : World → String → Connection V D → Connection V D
  attach_thing w id s =
      let s' = record s {
        thing_id = id;
        data_topic_in = topic id "/e/i";
        data_topic_out = topic id "/e/o";
      } in
      let s'' = run_device w (some device_attached_cmd_id) s' in
      if w.subscribes
      then record s'' { events = connect_event ∷ s''.events }
      else record s' { thing_id = no_thing_id }

  unfoldable pub detach_thing : World → Connection V D → Connection V D
  detach_thing w s =
      let s' = run_device w (some device_detached_cmd_id) s in
      if w.unsubscribes
      then record s' { thing_id = no_thing_id; events = disconnect_event ∷ s'.events }
      else s
