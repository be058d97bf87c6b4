-- ===== src/Witnesses/Messages.antt =====
-- Messages that src/cbor/CBOREncoder.cpp packs, with an encoder that counts properties.
use arduino_io_tcloud.Common.{ℕ, ◌*◌, ◌≡◌, false, some, ltb, if◌then◌else◌}
use arduino_io_tcloud.Thing.{Wrapper}
use arduino_io_tcloud.Property.{CborError, no_error, out_of_memory}
use arduino_io_tcloud.Witnesses.Wrappers.{methods, container}
use arduino_io_tcloud.CborEncoder.{Tinycbor, Tally, PropertyContainerEncoder}
use arduino_io_tcloud.CborEncoder.Loop.{encode}
use arduino_io_tcloud.CborEncoder.Accounts.{Outcome, encode-Outcome}

-- An array with two properties cannot be closed.
abbrev pub tinycbor : Tinycbor ℕ
tinycbor = record {
  encoder_init = λ size. 0;
  encoder_create_array = λ e. (e, 0);
  encoder_close_container = λ e a. (if ltb a 2 then no_error else out_of_memory, a);
  encoder_get_buffer_size = λ e. 10 * e;
}

abbrev empty : Tally ℕ
empty = record { encoded_property_count = 0; checked_property_count = 0; array_encoder = 0 }

abbrev coder : PropertyContainerEncoder Wrapper ℕ ℕ
coder = record {
  property_container = container;
  current_property_index = 0;
  encoded_property_limit = 0;
  property_limit_active = false;
  encoder = 0;
  tally = empty;
}

encode-Outcome_example :
    (r : CborError × ℕ × PropertyContainerEncoder Wrapper ℕ ℕ) × (encode methods tinycbor false 25
        256
        (λ n. 1000)
        0
        coder
      ≡ some r)
    × Outcome coder r
encode-Outcome_example = encode-Outcome methods tinycbor false coder 256 0 (λ n. 1000)
