-- ===== src/Witnesses/Connections.antt =====
-- Turns of the process of src/ArduinoIoTCloudTCP.cpp.
use arduino_io_tcloud.Common.{ℕ, ◌≡◌, refl, true, false, none, some, [], ◌∷◌, arith}
use text.Mathlib.TextEquality.{eq_iff}
use arduino_io_tcloud.TimedAttempt.{begin, retry, reload, is_retry, is_expired}
use arduino_io_tcloud.Thing.{Wrapper}
use arduino_io_tcloud.Tcp
use arduino_io_tcloud.Tcp.{Connection, World, Codec, no_thing_id}
use arduino_io_tcloud.Tcp.Commands.{Decoder, handle_command, thing_update_cmd, thing_detach_cmd}
use arduino_io_tcloud.Tcp.Attachment.{IsAttachedTo, thing_update-attached, thing_detach-any}
use arduino_io_tcloud.Tcp.Backup.{turns, turns-retransmit}
use arduino_io_tcloud.Tcp.States.{poll, retransmit, update, handle_disconnect}
use arduino_io_tcloud.Tcp.Reconnection.{rounds, disconnect-rounds}
use arduino_io_tcloud.Witnesses.Wrappers.{methods}
use arduino_io_tcloud.Witnesses.Messages.{tinycbor}
use arduino_io_tcloud.Witnesses.Processes.{in_sync, device}

abbrev codec : Codec ℕ
codec = record {
  tinycbor = tinycbor;
  encode_message = λ c. some (1 ∷ 2 ∷ []);
  buffer = λ e n. n ∷ [];
  message_topic_out = "/a/d/x/c/up";
}

abbrev decoder : Decoder Wrapper ℕ
decoder = record {
  decode_command = λ bytes. none;
  decode_properties = λ sync bytes c. c;
  message_topic_in = "/a/d/x/c/dw";
}

abbrev connection : Connection Wrapper ℕ
connection = record {
  state = Tcp.connect_phy;
  connection_attempt = record {
    min_delay = 1000;
    max_delay = 32000;
    retry_tick = 0;
    retry_delay = 0;
    retry_count = 0;
  };
  thing = in_sync;
  property_container_index = 0;
  device = record device { attached = true };
  thing_id = "door";
  data_topic_in = "/a/t/door/e/i";
  data_topic_out = "/a/t/door/e/o";
  mqtt_data_buf = [];
  mqtt_data_request_retransmit = false;
  published = [];
  events = [];
}

-- The network is there, and the broker refuses a new connection.
abbrev at : ℕ → World
at n = record {
  clock = record { millis = n; time = 9 };
  network_connected = true;
  time_synced = true;
  broker_connects = false;
  mqtt_connected = true;
  subscribes = true;
  unsubscribes = true;
  begins_message = true;
  writes = true;
  ends_message = true;
}

thing_update-attached_example :
    IsAttachedTo "lamp"
      (handle_command methods codec decoder (at 5) (thing_update_cmd "lamp") connection)
thing_update-attached_example =
    thing_update-attached methods codec decoder (at 5) "lamp" connection
      (λ e. ground (arith, eq_iff "lamp" "")) refl refl

-- The device is attached to "door".
thing_detach-any_example :
    ((handle_command methods codec decoder
        (at 5)
        (thing_detach_cmd "lamp")
        connection).device.attached
      ≡ false)
    × ((handle_command methods codec decoder (at 5) (thing_detach_cmd "lamp") connection).thing_id
        ≡ no_thing_id)
thing_detach-any_example = thing_detach-any methods codec decoder (at 5) "lamp" connection refl

abbrev lost : Connection Wrapper ℕ
lost = record connection { state = Tcp.disconnect }

-- The second attempt is made 3 s after the first, which asked for a wait of 2 s.
disconnect-rounds_example :
    (rounds methods codec decoder
      (at 5 ∷ at 3005 ∷ [])
      (update methods codec decoder (at 1) [] lost)).connection_attempt.retry_delay
    ≡ 4000
unfolding update handle_disconnect begin is_retry is_expired retry reload
disconnect-rounds_example =
    disconnect-rounds methods codec decoder (at 1) (at 5) [] (at 3005 ∷ []) lost refl (omega arith)
      (
        record { network = refl; synced = refl; refused = refl; due = refl },
        (record { network = refl; synced = refl; refused = refl; due = refl }, tt),
      )

-- Data is in the buffer.
abbrev loaded : Connection Wrapper ℕ
loaded = record lost { mqtt_data_buf = 7 ∷ [] }

turns-retransmit_example :
    retransmit
      (at 9)
      (poll methods codec decoder (at 9) [] (turns methods codec decoder ((at 5, []) ∷ []) loaded))
    ≡ poll methods codec decoder (at 9) [] (turns methods codec decoder ((at 5, []) ∷ []) loaded)
turns-retransmit_example =
    turns-retransmit methods codec decoder ((at 5, []) ∷ []) (at 9) [] loaded refl
