-- ===== src/Tcp/Backup.antt =====
-- When src/ArduinoIoTCloudTCP.cpp sends its backup buffer again.
use Prim.Native.String.{String}
use mathlib.Core.Path.{subst}
use text.Mathlib.Text.{◌==◌ as str_eq}
use arduino_io_tcloud.Common.{
  ℕ, ◌≡◌, sym, ap, ◌∙◌, true, false, not, ◌&&◌, ◌||◌, Option, none, some, List, [], ◌∷◌, length,
  ltb, if◌then◌else◌, if_both,
}
use arduino_io_tcloud.Messages.{
  CommandId, Message, message, reset_cmd_id, device_attached_cmd_id, device_detached_cmd_id,
  device_registered_cmd_id, timezone_command_down_id, last_values_update_cmd_id,
}
use arduino_io_tcloud.TimedAttempt.{retry}
use arduino_io_tcloud.Property.{Methods}
use arduino_io_tcloud.Thing
use arduino_io_tcloud.Device
use arduino_io_tcloud.Tcp.{
  Connection, State, World, Codec, connect_phy, sync_time, connect_mqtt_broker, connected,
  disconnect, run_device, run_thing, attach_thing, detach_thing, topic, no_thing_id, connect_event,
  disconnect_event, write,
}
use arduino_io_tcloud.Tcp.Commands.{
  Decoder, CommandDown, thing_update_cmd, thing_detach_cmd, timezone_command_down,
  last_values_update_cmd, other, decode, leave_other, join, change_thing, handle_command,
  handle_decoded, handle_message,
}
use arduino_io_tcloud.Tcp.Sending.{run_device-Kept, run_thing-Kept}
use arduino_io_tcloud.Tcp.States.{
  update, settle, run_state, poll, retransmit, handle_connect_phy, handle_sync_time,
  handle_connect_mqtt_broker, handle_connected, handle_disconnect,
}

-- A retransmission is not asked for.
abbrev pub IsOff : {V D : Type 0} → Connection V D → Type 0
IsOff s = s.mqtt_data_request_retransmit ≡ false

module _ {V D : Type 0} where
  retransmit-off : (w : World) (s : Connection V D) → IsOff s → retransmit w s ≡ s
  unfolding retransmit
  retransmit-off w s h =
      ap
        (λ b.
          if b && ltb 0 (length s.mqtt_data_buf)
          then record (write w s.data_topic_out s.mqtt_data_buf s) {
            mqtt_data_request_retransmit = false;
          }
          else s)
        h

  broker-IsOff :
      (w : World) (s : Connection V D) → IsOff s → IsOff (settle (handle_connect_mqtt_broker w s))
  unfolding handle_connect_mqtt_broker
  broker-IsOff w s h =
      if_both (λ (r : State × Connection V D). IsOff r.1) w.broker_connects (connected, s)
        (connect_phy, record s { connection_attempt = retry w.clock.millis s.connection_attempt }) h
        h

module _ {V D E M : Type 0} (m : Methods V D E M) (x : Codec E) where
  run_device-IsOff :
      (w : World) (msg : Option CommandId) (s : Connection V D)
      → IsOff s
      → IsOff (run_device m x w msg s)
  run_device-IsOff w msg s h =
      ap (λ (z : Connection V D). z.mqtt_data_request_retransmit) (run_device-Kept m x w msg s) ∙ h

  run_thing-IsOff :
      (w : World) (msg : Option Message) (s : Connection V D)
      → IsOff s
      → IsOff (run_thing m x w msg s)
  run_thing-IsOff w msg s h =
      ap (λ (z : Connection V D). z.mqtt_data_request_retransmit) (run_thing-Kept m x w msg s) ∙ h

  detach_thing-IsOff : (w : World) (s : Connection V D) → IsOff s → IsOff (detach_thing m x w s)
  unfolding detach_thing
  detach_thing-IsOff w s h =
      let s' = run_device m x w (some device_detached_cmd_id) s in
      if_both IsOff w.unsubscribes
        (record s' { thing_id = no_thing_id; events = disconnect_event ∷ s'.events }) s
        (run_device-IsOff w (some device_detached_cmd_id) s h) h

  attach_thing-IsOff :
      (w : World) (id : String) (s : Connection V D) → IsOff s → IsOff (attach_thing m x w id s)
  unfolding attach_thing
  attach_thing-IsOff w id s h =
      let s' = record s {
        thing_id = id;
        data_topic_in = topic id "/e/i";
        data_topic_out = topic id "/e/o";
      } in
      let s'' = run_device m x w (some device_attached_cmd_id) s' in
      if_both IsOff w.subscribes (record s'' { events = connect_event ∷ s''.events })
        (record s' { thing_id = no_thing_id })
        (run_device-IsOff w (some device_attached_cmd_id) s' h) h

  change_thing-IsOff :
      (w : World) (id : String) (s : Connection V D) → IsOff s → IsOff (change_thing m x w id s)
  unfolding change_thing leave_other join
  change_thing-IsOff w id s h =
      let s' = leave_other m x w id s in
      let left =
        if_both IsOff (s.device.attached && not (str_eq s.thing_id id)) (detach_thing m x w s) s
          (detach_thing-IsOff w s h) h in
      if_both IsOff (not s'.device.attached) (attach_thing m x w id s') s'
        (attach_thing-IsOff w id s' left) left

module _ {V D E M : Type 0} (m : Methods V D E M) (x : Codec E) (y : Decoder V D) where
  handle_command-IsOff :
      (w : World) (c : CommandDown) (s : Connection V D)
      → IsOff s
      → IsOff (handle_command m x y w c s)
  unfolding handle_command
  handle_command-IsOff w (thing_update_cmd id) s h =
      let s' = record s { thing_id = no_thing_id } in
      if_both IsOff (str_eq id "") (run_device m x w (some device_registered_cmd_id) s')
        (change_thing m x w id s) (run_device-IsOff m x w (some device_registered_cmd_id) s' h)
        (change_thing-IsOff m x w id s h)
  handle_command-IsOff w (thing_detach_cmd id) s h = detach_thing-IsOff m x w s h
  handle_command-IsOff w (timezone_command_down offset until) s h =
      run_thing-IsOff m x w
        (some (record { id = timezone_command_down_id; offset = offset; until = until })) s h
  handle_command-IsOff w (last_values_update_cmd bytes) s h =
      run_thing-IsOff m x w (some (message last_values_update_cmd_id)) (decode m x y true bytes s) h
  handle_command-IsOff w other s h = h

  handle_decoded-IsOff :
      (w : World) (c : Option CommandDown) (s : Connection V D)
      → IsOff s
      → IsOff (handle_decoded m x y w c s)
  handle_decoded-IsOff w none s h = h
  handle_decoded-IsOff w (some c) s h = handle_command-IsOff w c s h

  poll-IsOff :
      (w : World) (inbox : List (String × List ℕ)) (s : Connection V D)
      → IsOff s
      → IsOff (poll m x y w inbox s)
  unfolding handle_message
  poll-IsOff w [] s h = h
  poll-IsOff w ((t, bytes) ∷ inbox) s h =
      let s' = if str_eq s.data_topic_in t then decode m x y false bytes s else s in
      let off = if_both IsOff (str_eq s.data_topic_in t) (decode m x y false bytes s) s h h in
      poll-IsOff w inbox (handle_message m x y w (t, bytes) s) (
        if_both IsOff (str_eq y.message_topic_in t)
          (handle_decoded m x y w (y.decode_command bytes) s') s'
          (handle_decoded-IsOff w (y.decode_command bytes) s' off) off)

  connected-IsOff :
      (w : World) (inbox : List (String × List ℕ)) (s : Connection V D)
      → IsOff s
      → IsOff (handle_connected m x y w inbox s).1
  unfolding handle_connected
  connected-IsOff w inbox s h =
      let polled = poll m x y w inbox s in
      let off = poll-IsOff w inbox s h in
      let s' = run_device m x w none (retransmit w polled) in
      let off' =
        run_device-IsOff m x w none (retransmit w polled)
          (subst IsOff (sym (retransmit-off w polled off)) off) in
      if_both (λ (r : State × Connection V D). IsOff r.1)
        (not w.mqtt_connected
          || (not (Thing.is_connected s.thing.state) || not (Device.is_connected s.device.state)))
        (disconnect, s) (connected, if s'.device.attached then run_thing m x w none s' else s') h
        (if_both IsOff s'.device.attached (run_thing m x w none s') s'
          (run_thing-IsOff m x w none s' off') off')

  disconnect-IsOff :
      (w : World) (s : Connection V D) → IsOff s → IsOff (handle_disconnect m x y w s).1
  unfolding handle_disconnect
  disconnect-IsOff w s h =
      let msg = some (message reset_cmd_id) in
      run_device-IsOff m x w (some reset_cmd_id) (run_thing m x w msg s)
        (run_thing-IsOff m x w msg s h)

  state-IsOff :
      (w : World) (inbox : List (String × List ℕ)) (st : State) (s : Connection V D)
      → IsOff s
      → IsOff (run_state m x y w inbox st s).1
  unfolding handle_connect_phy handle_sync_time
  state-IsOff w inbox connect_phy s h = h
  state-IsOff w inbox sync_time s h = h
  state-IsOff w inbox connect_mqtt_broker s h = broker-IsOff w s h
  state-IsOff w inbox connected s h = connected-IsOff w inbox s h
  state-IsOff w inbox disconnect s h = disconnect-IsOff w s h

  -- Turns of `update`, each in its world and with its messages.
  abbrev pub turns : List (World × List (String × List ℕ)) → Connection V D → Connection V D
  turns [] s = s
  turns (t ∷ ts) s = turns ts (update m x y t.0 t.1 s)

  turns-IsOff :
      (ts : List (World × List (String × List ℕ))) (s : Connection V D)
      → IsOff s
      → IsOff (turns ts s)
  unfolding update
  turns-IsOff [] s h = h
  turns-IsOff (t ∷ ts) s h =
      turns-IsOff ts (update m x y t.0 t.1 s) (state-IsOff t.0 t.1 s.state s h)

  -- A process whose request of a retransmission is off, as it is at the start, never sends its
  -- backup buffer again: after any turns, and after the messages of the next one, the step that
  -- does it does nothing.
  pub turns-retransmit :
      (ts : List (World × List (String × List ℕ))) (w : World) (inbox : List (String × List ℕ))
      → (s : Connection V D) → s.mqtt_data_request_retransmit ≡ false
      → let s' = poll m x y w inbox (turns ts s) in retransmit w s' ≡ s'
  turns-retransmit ts w inbox s h =
      retransmit-off w (poll m x y w inbox (turns ts s))
        (poll-IsOff w inbox (turns ts s) (turns-IsOff ts s h))
