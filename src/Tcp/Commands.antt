-- ===== src/Tcp/Commands.antt =====
-- `ArduinoIoTCloudTCP::handleMessage` of src/ArduinoIoTCloudTCP.cpp: a message from the broker.
use Prim.Native.String.{String}
use text.Mathlib.Text.{◌==◌ as str_eq}
use arduino_io_tcloud.Common.{
  ℕ, Bool, true, false, not, ◌&&◌, Option, none, some, List, ◌∷◌, if◌then◌else◌,
}
use arduino_io_tcloud.Messages.{
  message, timezone_command_down_id, last_values_update_cmd_id, device_registered_cmd_id,
}
use arduino_io_tcloud.Property.{Methods}
use arduino_io_tcloud.Container.{PropertyContainer}
use arduino_io_tcloud.Tcp.{
  Connection, World, Codec, no_thing_id, sync_event, run_device, run_thing, attach_thing,
  detach_thing,
}

-- `CommandDown`, with the parameters that are read; ids that the switch has no case for are `other`.
pub data CommandDown : Type 0 where
  thing_update_cmd thing_detach_cmd : String → CommandDown
  timezone_command_down : ℕ → ℕ → CommandDown
  last_values_update_cmd : List ℕ → CommandDown
  other : CommandDown

-- `CBORMessageDecoder::decode` where it succeeds, `CBORDecoder::decode` with its flag
-- `isSyncMessage`, and `_messageTopicIn`.
pub record Decoder (V D : Type 0) : Type 0 where
  pub decode_command : List ℕ → Option CommandDown
  pub decode_properties : Bool → List ℕ → PropertyContainer V D → PropertyContainer V D
  pub message_topic_in : String

module _ {V D E M : Type 0} (m : Methods V D E M) (x : Codec E) where
  -- The two tests of a new thing id.
  unfoldable pub leave_other : World → String → Connection V D → Connection V D
  leave_other w id s =
      if s.device.attached && not (str_eq s.thing_id id) then detach_thing m x w s else s

  unfoldable pub join : World → String → Connection V D → Connection V D
  join w id s = if not s.device.attached then attach_thing m x w id s else s

  unfoldable pub change_thing : World → String → Connection V D → Connection V D
  change_thing w id s = join w id (leave_other w id s)

module _ {V D E M : Type 0} (m : Methods V D E M) (x : Codec E) (y : Decoder V D) where
  abbrev pub decode : Bool → List ℕ → Connection V D → Connection V D
  decode is_sync_message bytes s = record s {
    thing = record (s.thing) {
      container = y.decode_properties is_sync_message bytes s.thing.container;
    };
  }

  -- A detach command for another thing is reported, and carried out all the same.
  unfoldable pub handle_command : World → CommandDown → Connection V D → Connection V D
  handle_command w (thing_update_cmd id) s =
      if str_eq id ""
      then run_device m x w (some device_registered_cmd_id) (record s { thing_id = no_thing_id })
      else change_thing m x w id s
  handle_command w (thing_detach_cmd id) s = detach_thing m x w s
  handle_command w (timezone_command_down offset until) s =
      run_thing m x w
        (some (record { id = timezone_command_down_id; offset = offset; until = until })) s
  handle_command w (last_values_update_cmd bytes) s =
      let s' = run_thing m x w (some (message last_values_update_cmd_id)) (decode true bytes s) in
      record s' { events = sync_event ∷ s'.events }
  handle_command w other s = s

  abbrev pub handle_decoded : World → Option CommandDown → Connection V D → Connection V D
  handle_decoded w none s = s
  handle_decoded w (some c) s = handle_command w c s

  -- A message of a topic.
  unfoldable pub handle_message : World → String × List ℕ → Connection V D → Connection V D
  handle_message w (topic, bytes) s =
      let s' = if str_eq s.data_topic_in topic then decode false bytes s else s in
      if str_eq y.message_topic_in topic then handle_decoded w (y.decode_command bytes) s' else s'
