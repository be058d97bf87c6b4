-- ===== src/CommandCodec/Encoder.antt =====
-- src/cbor/MessageEncoder.cpp. The calls of tinycbor are an `ArrayEncoder`: `E` is the type of a
-- `CborEncoder`, and a call gives none where it does not return `CborNoError`.
use Prim.Native.String.{String}
use arduino_io_tcloud.Common.{
  ℕ, zero, suc, Option, none, some, List, ◌==◌, ◌||◌, if◌then◌else◌, ℤ, ◌>>=◌,
}
use arduino_io_tcloud.Messages.{
  CommandId, device_begin_cmd_id, thing_begin_cmd_id, last_values_begin_cmd_id, ota_begin_up_id,
  ota_progress_cmd_up_id, timezone_command_up_id,
}
use arduino_io_tcloud.CommandCodec.{to_cbor_command_tag}

pub record ArrayEncoder (E : Type 0) : Type 0 where
  pub encoder_init : ℕ → E
  pub encode_tag : ℕ → E → Option E
  pub create_array : ℕ → E → Option (E × E)
  pub close_container : E → E → Option E
  pub encode_byte_string : List ℕ → E → Option E
  pub encode_text_stringz : String → E → Option E
  pub encode_simple_value : ℕ → E → Option E
  pub encode_int : ℤ → E → Option E
  pub encode_uint : ℕ → E → Option E
  pub written_bytes : E → List ℕ

-- A command for the cloud, with the parameters of each of them.
pub record CommandUp : Type 0 where
  pub id : CommandId
  pub lib_version : String
  pub thing_id : String
  pub sha : List ℕ
  pub ota_id : List ℕ
  pub state : ℕ
  pub state_data : ℤ
  pub time : ℕ

pub data EncoderState : Type 0 where
  encode_tag encode_array encode_param close_array : EncoderState
  message_not_supported complete error : EncoderState

-- The local variables of `encode`.
pub record Encoders (E : Type 0) : Type 0 where
  pub encoder : E
  pub array_encoder : E

-- The size that the array is opened with, by command.
unfoldable pub array_size : CommandId → Option ℕ
array_size ota_begin_up_id = some 1
array_size thing_begin_cmd_id = some 1
array_size device_begin_cmd_id = some 1
array_size last_values_begin_cmd_id = some 0
array_size ota_progress_cmd_up_id = some 4
array_size timezone_command_up_id = some 0
array_size _ = none

module _ {E : Type 0} (t : ArrayEncoder E) where
  unfoldable pub encode_ota_begin_up : CommandUp → E → Option E
  encode_ota_begin_up m a = t.encode_byte_string m.sha a >>= λ b. some b

  unfoldable pub encode_thing_begin_cmd : CommandUp → E → Option E
  encode_thing_begin_cmd m a = t.encode_text_stringz m.thing_id a >>= λ b. some b

  unfoldable pub encode_device_begin_cmd : CommandUp → E → Option E
  encode_device_begin_cmd m a = t.encode_text_stringz m.lib_version a >>= λ b. some b

  unfoldable pub encode_ota_progress_cmd_up : CommandUp → E → Option E
  encode_ota_progress_cmd_up m a = t.encode_byte_string m.ota_id a >>= λ b.
      t.encode_simple_value m.state b >>= λ c.
      t.encode_int m.state_data c >>= λ d. t.encode_uint m.time d >>= λ e. some e

  unfoldable pub tagged : Encoders E → Option E → EncoderState × Encoders E
  tagged s none = (error, s)
  tagged s (some e) = (encode_array, record s { encoder = e })

  unfoldable pub handle_encode_tag : CommandUp → Encoders E → EncoderState × Encoders E
  handle_encode_tag m s =
      let command_tag = to_cbor_command_tag m.id in
      if command_tag == 0xffff || command_tag == 0xffffffff || command_tag == 0xffffffffffffffff
      then (error, s)
      else tagged s (t.encode_tag command_tag s.encoder)

  unfoldable pub opened : Encoders E → Option (E × E) → EncoderState × Encoders E
  opened s none = (error, s)
  opened s (some (e, a)) = (encode_param, record { encoder = e; array_encoder = a })

  unfoldable pub open_sized : Encoders E → Option ℕ → EncoderState × Encoders E
  open_sized s none = (message_not_supported, s)
  open_sized s (some size) = opened s (t.create_array size s.encoder)

  unfoldable pub handle_encode_array : CommandUp → Encoders E → EncoderState × Encoders E
  handle_encode_array m s = open_sized s (array_size m.id)

  unfoldable pub with_params : Encoders E → Option E → EncoderState × Encoders E
  with_params s none = (error, s)
  with_params s (some a) = (close_array, record s { array_encoder = a })

  unfoldable pub param_of : CommandId → CommandUp → Encoders E → EncoderState × Encoders E
  param_of ota_begin_up_id m s = with_params s (encode_ota_begin_up m s.array_encoder)
  param_of thing_begin_cmd_id m s = with_params s (encode_thing_begin_cmd m s.array_encoder)
  param_of device_begin_cmd_id m s = with_params s (encode_device_begin_cmd m s.array_encoder)
  param_of last_values_begin_cmd_id m s = (close_array, s)
  param_of ota_progress_cmd_up_id m s = with_params s (encode_ota_progress_cmd_up m s.array_encoder)
  param_of timezone_command_up_id m s = (close_array, s)
  param_of _ m s = (message_not_supported, s)

  unfoldable pub handle_encode_param : CommandUp → Encoders E → EncoderState × Encoders E
  handle_encode_param m s = param_of m.id m s

  unfoldable pub closed : Encoders E → Option E → EncoderState × Encoders E
  closed s none = (error, s)
  closed s (some e) = (complete, record s { encoder = e })

  unfoldable pub handle_close_array : Encoders E → EncoderState × Encoders E
  handle_close_array s = closed s (t.close_container s.encoder s.array_encoder)

  -- The loop for a number of rounds: none is an unfinished loop, `some none` is `Status::Error`.
  unfoldable pub run : ℕ → CommandUp → EncoderState × Encoders E → Option (Option (List ℕ))
  run n m (complete, s) = some (some (t.written_bytes s.encoder))
  run n m (message_not_supported, s) = some none
  run n m (error, s) = some none
  run zero m (_, s) = none
  run (suc n) m (encode_tag, s) = run n m (handle_encode_tag m s)
  run (suc n) m (encode_array, s) = run n m (handle_encode_array m s)
  run (suc n) m (encode_param, s) = run n m (handle_encode_param m s)
  run (suc n) m (close_array, s) = run n m (handle_close_array s)

  -- `array_encoder` has no value at first: it is given by the caller.
  unfoldable pub encode : CommandUp → ℕ → E → Option (Option (List ℕ))
  encode m size a =
      run 4 m (encode_tag, record { encoder = t.encoder_init size; array_encoder = a })
