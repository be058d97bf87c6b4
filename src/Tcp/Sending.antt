-- ===== src/Tcp/Sending.antt =====
-- What sending changes in the process of src/ArduinoIoTCloudTCP.cpp.
use Prim.Native.String.{String}
use mathlib.Core.List.{reverse}
use arduino_io_tcloud.Common.{
  ℕ, ◌+◌, ◌*◌, ◌≡◌, refl, ap, ◌∙◌, false, ◌&&◌, Option, none, some, List, [], ◌∷◌, length, ltb,
  if_both,
}
use arduino_io_tcloud.Messages.{CommandId, Message, properties_update_cmd_id}
use arduino_io_tcloud.Property.{
  Methods, CborError, no_error, out_of_memory, split_items, other_error,
}
use arduino_io_tcloud.CborEncoder.{PropertyContainerEncoder}
use arduino_io_tcloud.CborEncoder.Loop.{encode}
use arduino_io_tcloud.Thing
use arduino_io_tcloud.Device
use arduino_io_tcloud.Tcp.{
  Connection, World, Codec, write, after_encode, take_over, send_property_container_to_cloud,
  after_encode_message, send_message, send_all, run_device, run_thing, coder,
  mqtt_transmit_buffer_size,
}

module _ {V D : Type 0} where
  -- `s` with the properties, the index, the backup buffer and the broker's log of `s'`.
  abbrev pub framed : Connection V D → Connection V D → Connection V D
  framed s s' = record s {
    thing = record (s.thing) { container = s'.thing.container };
    property_container_index = s'.property_container_index;
    mqtt_data_buf = s'.mqtt_data_buf;
    published = s'.published;
  }

  -- Nothing else has changed.
  abbrev pub Kept : Connection V D → Connection V D → Type 0
  Kept s s' = s' ≡ framed s s'

  Kept-trans : (s s' s'' : Connection V D) → Kept s s' → Kept s' s'' → Kept s s''
  Kept-trans s s' s'' h k = k ∙ ap (λ z. framed z s'') h

  write-Kept : (w : World) (t : String) (b : List ℕ) (s : Connection V D) → Kept s (write w t b s)
  unfolding write
  write-Kept w t b s =
      if_both (Kept s) (w.begins_message && (w.writes && w.ends_message))
        (record s { published = (t, b) ∷ s.published }) s refl refl

module _ {V D E M : Type 0} (m : Methods V D E M) (x : Codec E) where
  after_encode-Kept :
      (w : World) (s : Connection V D)
      → (r : Option (CborError × ℕ × PropertyContainerEncoder V D E))
      → Kept s (after_encode m x w s r)
  after_encode-Kept w s none = refl
  after_encode-Kept w s (some (no_error, bytes, e)) =
      let s' = take_over m x e s in
      let payload = x.buffer e.encoder bytes in
      let stored = record s' { mqtt_data_buf = payload } in
      if_both (Kept s) (ltb 0 bytes) (write w s.data_topic_out payload stored) s'
        (Kept-trans s stored (write w s.data_topic_out payload stored) refl
          (write-Kept w s.data_topic_out payload stored))
        refl
  after_encode-Kept w s (some (out_of_memory, bytes, e)) = refl
  after_encode-Kept w s (some (split_items, bytes, e)) = refl
  after_encode-Kept w s (some (other_error n, bytes, e)) = refl

  after_encode_message-Kept :
      (w : World) (o : Option (List ℕ)) (s : Connection V D)
      → Kept s (after_encode_message m x w o s)
  after_encode_message-Kept w none s = refl
  after_encode_message-Kept w (some b) s =
      if_both (Kept s) (ltb 0 (length b)) (write w x.message_topic_out b s) s
        (write-Kept w x.message_topic_out b s) refl

  send_message-Kept :
      (w : World) (c : CommandId) (s : Connection V D) → Kept s (send_message m x w c s)
  unfolding send_message send_property_container_to_cloud
  send_message-Kept w properties_update_cmd_id s = after_encode-Kept w s (
      encode m x.tinycbor false (6 * length s.thing.container + 13) mqtt_transmit_buffer_size
        (λ n. w.clock.millis) 0 (coder m x s))
  send_message-Kept w c s = after_encode_message-Kept w (x.encode_message c) s

  send_all-Kept :
      (w : World) (cs : List CommandId) (s : Connection V D) → Kept s (send_all m x w cs s)
  send_all-Kept w [] s = refl
  send_all-Kept w (c ∷ cs) s =
      Kept-trans s (send_message m x w c s) (send_all m x w cs (send_message m x w c s))
        (send_message-Kept w c s) (send_all-Kept w cs (send_message m x w c s))

  -- The device process changes the device, and sends.
  pub run_device-Kept :
      (w : World) (msg : Option CommandId) (s : Connection V D)
      → let d = Device.handle_message w.clock.millis msg (record (s.device) { delivered = [] }) in
        Kept (record s { device = record d { delivered = [] } }) (run_device m x w msg s)
  unfolding run_device
  run_device-Kept w msg s =
      let d = Device.handle_message w.clock.millis msg (record (s.device) { delivered = [] }) in
      send_all-Kept w (reverse d.delivered) (record s { device = record d { delivered = [] } })

  pub run_thing-Kept :
      (w : World) (msg : Option Message) (s : Connection V D)
      → let t = Thing.handle_message m w.clock msg (record (s.thing) { delivered = [] }) in
        Kept (record s { thing = record t { delivered = [] } }) (run_thing m x w msg s)
  unfolding run_thing
  run_thing-Kept w msg s =
      let t = Thing.handle_message m w.clock msg (record (s.thing) { delivered = [] }) in
      send_all-Kept w (reverse t.delivered) (record s { thing = record t { delivered = [] } })
