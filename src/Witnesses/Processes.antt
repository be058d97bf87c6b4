-- ===== src/Witnesses/Processes.antt =====
-- Runs of the processes of src/ArduinoIoTCloudThing.cpp and src/ArduinoIoTCloudDevice.cpp.
use arduino_io_tcloud.Common.{
  ℕ, ◌+◌, ◌*◌, ◌≡◌, refl, inl, true, false, none, some, List, [], ◌∷◌, arith,
}
use arduino_io_tcloud.Messages.{message, last_values_update_cmd_id}
use arduino_io_tcloud.TimedAttempt.{TimedAttempt, is_expired, is_retry, retry}
use arduino_io_tcloud.Witnesses.Wrappers.{methods, container}
use arduino_io_tcloud.Container.{PropertyContainer}
use arduino_io_tcloud.Thing
use arduino_io_tcloud.Thing.{Thing, Wrapper, Clock}
use arduino_io_tcloud.Thing.Requests.{IsBounded, handle_message-IsBounded}
use arduino_io_tcloud.Thing.Unanswered.{updates, updates-disconnect, requests, due_count}
use arduino_io_tcloud.Thing.Answered.{answered-count}
use arduino_io_tcloud.Thing.Answers.{timezone_down, timezone_down-lost}
use arduino_io_tcloud.Device
use arduino_io_tcloud.Device.{Device}
use arduino_io_tcloud.Device.Attach.{Announced, registered-Announced}

abbrev attempt : TimedAttempt
attempt = record {
  min_delay = 2000;
  max_delay = 32000;
  retry_tick = 0;
  retry_delay = 30000;
  retry_count = 0;
}

abbrev thing : Thing (PropertyContainer Wrapper ℕ)
thing = record {
  state = Thing.request_last_values;
  sync_attempt = attempt;
  container = container;
  utc_offset = record { primitive_value = 3600; cloud_value = 3600 };
  utc_offset_expire_time = record { primitive_value = 9000; cloud_value = 9000 };
  delivered = [];
  timezone = none;
}

abbrev pub in_sync : Thing (PropertyContainer Wrapper ℕ)
in_sync = record thing { state = Thing.connected }

abbrev clock : ℕ → Clock
clock n = record { millis = n * 100_000; time = n * 100 }

abbrev ticks : List Clock
ticks = clock 1 ∷ clock 2 ∷ clock 3 ∷ []

-- Nine requests are sent, two are left.
abbrev waiting : Thing (PropertyContainer Wrapper ℕ)
waiting = record thing { sync_attempt = record attempt { retry_count = 9 } }

handle_message-IsBounded_example :
    IsBounded methods
      (Thing.handle_message methods (clock 1) (some (message last_values_update_cmd_id)) thing)
handle_message-IsBounded_example =
    handle_message-IsBounded methods (clock 1) (some (message last_values_update_cmd_id)) thing
      (omega arith)

-- The second call is too early, and the last one finds the process disconnected.
abbrev pub irregular : List Clock
irregular = clock 1 ∷ clock 1 ∷ clock 2 ∷ clock 3 ∷ clock 4 ∷ []

updates-disconnect_example :
    ((updates methods irregular waiting).state ≡ Thing.disconnect)
    × ((left : ℕ) × (left + 9 ≡ 11)
        × ((updates methods irregular waiting).delivered ≡ requests left []))
unfolding due_count Thing.handle_message Thing.run_state is_retry is_expired retry
updates-disconnect_example =
    updates-disconnect methods irregular waiting refl (omega arith) (omega arith)

timezone_down-lost_example :
    (Thing.handle_message methods (clock 1) (timezone_down 7200 9500) in_sync).timezone
    ≡ some (3600, 9000)
timezone_down-lost_example =
    timezone_down-lost methods (clock 1) in_sync 7200 9500 refl (inl (omega arith))

abbrev pub device : Device
device = record {
  state = Device.connected;
  attach_attempt = attempt;
  attached = false;
  registered = true;
  delivered = [];
}

registered-Announced_example :
    Announced device (Device.handle_message 40_001 none (Device.handle_message 40_000 none device))
unfolding is_expired
registered-Announced_example =
    registered-Announced 40_000 40_001 device refl refl refl refl (omega arith)

answered-count_example :
    ((Thing.handle_message methods
        (clock 2)
        (some (message last_values_update_cmd_id))
        (Thing.handle_message methods (record { millis = 190_000; time = 190 }) none waiting)).state
      ≡ Thing.connected)
    × ((Thing.handle_message methods (clock 2) (some (message last_values_update_cmd_id)) (
          Thing.handle_message methods
            (record { millis = 190_000; time = 190 })
            none
            waiting)).sync_attempt.retry_count
        ≡ 10)
unfolding Thing.handle_message Thing.run_state is_retry is_expired retry
answered-count_example =
    answered-count methods (record { millis = 190_000; time = 190 }) (clock 2) waiting refl refl
      (omega arith) refl
