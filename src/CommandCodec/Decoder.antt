-- ===== src/CommandCodec/Decoder.antt =====
-- src/cbor/MessageDecoder.cpp. The calls of tinycbor are a `Reader`: `I` is the type of a
-- `CborValue`, and a call gives none where it does not return `CborNoError`.
-- No caller reads the message of a `Status::Error`, so that a decoder that fails gives none.
use arduino_io_tcloud.Common.{
  ℕ, zero, suc, ◌-◌, ◌%◌, Bool, Option, none, some, List, if◌then◌else◌, ℤ, u32_mod, ◌>>=◌,
}
use arduino_io_tcloud.Messages.{
  CommandId, thing_update_cmd_id, thing_detach_cmd_id, last_values_update_cmd_id,
  ota_update_cmd_down_id, timezone_command_down_id,
}
use arduino_io_tcloud.CommandCodec.{to_command_id}

pub record Reader (I : Type 0) : Type 0 where
  pub parser_init : List ℕ → Option I
  pub is_tag : I → Bool
  pub get_tag : I → Option ℕ
  pub is_array : I → Bool
  pub is_text_string : I → Bool
  pub is_byte_string : I → Bool
  pub is_integer : I → Bool
  pub advance : I → Option I
  pub enter_container : I → Option I
  pub leave_container : I → I → Option I
  pub get_int64 : I → Option ℤ
  pub get_uint64 : I → Option ℕ
  -- `_cbor_value_copy_string` into an array: its new contents.
  pub copy_string : I → List ℕ → Option (List ℕ)
  pub dup_byte_string : I → Option (List ℕ)

-- A `CommandDown`: a list is the memory of an array, `last_values` what the pointer of that name
-- points to, and `offset`, an `int`, a 32-bit pattern.
pub record CommandDown : Type 0 where
  pub id : CommandId
  pub thing_id : List ℕ
  pub offset : ℕ
  pub until : ℕ
  pub last_values : List ℕ
  pub ota_id : List ℕ
  pub url : List ℕ
  pub initial_sha256 : List ℕ
  pub final_sha256 : List ℕ

pub data ArrayParserState : Type 0 where
  enter_array parse_param leave_array complete error message_not_supported : ArrayParserState

-- The local variables of `decode`, and the message.
pub record Decoding (I : Type 0) : Type 0 where
  pub main_iter : I
  pub array_iter : I
  pub message : CommandDown

-- `static_cast<int32_t>` of an `int64_t`.
unfoldable pub int32 : ℤ → ℕ
int32 (ℤ.pos n) = n % u32_mod
int32 (ℤ.negsuc n) = u32_mod - 1 - n % u32_mod

-- `params.offset` and `params.until` keep what they hold where there is no value.
unfoldable pub set_offset : Option ℤ → CommandDown → CommandDown
set_offset none m = m
set_offset (some val) m = record m { offset = int32 val }

unfoldable pub set_until : Option ℕ → CommandDown → CommandDown
set_until none m = m
set_until (some val) m = record m { until = val % u32_mod }

unfoldable pub set_id : Option ℕ → CommandDown → CommandDown
set_id none m = m
set_id (some tag) m = record m { id = to_command_id tag }

module _ {I : Type 0} (r : Reader I) where
  unfoldable pub copy_cbor_string_to_array : I → List ℕ → Option (List ℕ)
  copy_cbor_string_to_array param dest =
      if r.is_text_string param then r.copy_string param dest else none

  unfoldable pub copy_cbor_byte_to_array : I → List ℕ → Option (List ℕ)
  copy_cbor_byte_to_array param dest =
      if r.is_byte_string param then r.copy_string param dest else none

  unfoldable pub entered : Decoding I → Option I → ArrayParserState × Decoding I
  entered s none = (error, s)
  entered s (some it) = (parse_param, record s { array_iter = it })

  unfoldable pub handle_enter_array : Decoding I → ArrayParserState × Decoding I
  handle_enter_array s =
      if r.is_array s.main_iter then entered s (r.enter_container s.main_iter) else (error, s)

  unfoldable pub left : Decoding I → Option I → ArrayParserState × Decoding I
  left s none = (error, s)
  left s (some it) = (complete, record s { main_iter = it })

  unfoldable pub advanced : Decoding I → Option I → ArrayParserState × Decoding I
  advanced s none = (error, s)
  advanced s (some it) = left (record s { array_iter = it }) (r.leave_container s.main_iter it)

  unfoldable pub handle_leave_array : Decoding I → ArrayParserState × Decoding I
  handle_leave_array s = advanced s (r.advance s.array_iter)

  -- What a message decoder gives: the iterator and the message, or none for `Error`.
  unfoldable pub decoded : Decoding I → Option (I × CommandDown) → ArrayParserState × Decoding I
  decoded s none = (error, s)
  decoded s (some (it, m)) = (leave_array, record s { array_iter = it; message = m })

  unfoldable pub decode_thing_update_cmd : I → CommandDown → Option (I × CommandDown)
  decode_thing_update_cmd param m =
      copy_cbor_string_to_array param m.thing_id >>= λ b. some (param, record m { thing_id = b })

  unfoldable pub decode_thing_detach_cmd : I → CommandDown → Option (I × CommandDown)
  decode_thing_detach_cmd param m =
      copy_cbor_string_to_array param m.thing_id >>= λ b. some (param, record m { thing_id = b })

  unfoldable pub decode_timezone_command_down : I → CommandDown → Option (I × CommandDown)
  decode_timezone_command_down param m =
      let n = if r.is_integer param then set_offset (r.get_int64 param) m else m in
      r.advance param >>= λ it.
      some (it, if r.is_integer it then set_until (r.get_uint64 it) n else n)

  unfoldable pub decode_last_values_update_cmd : I → CommandDown → Option (I × CommandDown)
  decode_last_values_update_cmd param m =
      if r.is_byte_string param
      then (r.dup_byte_string param >>= λ b. some (param, record m { last_values = b }))
      else some (param, m)

  unfoldable pub decode_ota_update_cmd_down : I → CommandDown → Option (I × CommandDown)
  decode_ota_update_cmd_down param m = copy_cbor_byte_to_array param m.ota_id >>= λ id.
      r.advance param >>= λ it. copy_cbor_string_to_array it m.url >>= λ url. r.advance it >>= λ jt.
      copy_cbor_byte_to_array jt m.initial_sha256 >>= λ initial. r.advance jt >>= λ kt.
      copy_cbor_byte_to_array kt m.final_sha256 >>= λ final.
      some (kt, record m { ota_id = id; url = url; initial_sha256 = initial; final_sha256 = final })

  unfoldable pub param_of : CommandId → Decoding I → ArrayParserState × Decoding I
  param_of thing_update_cmd_id s = decoded s (decode_thing_update_cmd s.array_iter s.message)
  param_of thing_detach_cmd_id s = decoded s (decode_thing_detach_cmd s.array_iter s.message)
  param_of timezone_command_down_id s =
      decoded s (decode_timezone_command_down s.array_iter s.message)
  param_of last_values_update_cmd_id s =
      decoded s (decode_last_values_update_cmd s.array_iter s.message)
  param_of ota_update_cmd_down_id s = decoded s (decode_ota_update_cmd_down s.array_iter s.message)
  param_of _ s = (message_not_supported, s)

  unfoldable pub handle_param : Decoding I → ArrayParserState × Decoding I
  handle_param s = param_of s.message.id s

  -- The loop for a number of rounds: none is an unfinished loop, `some none` is `Status::Error`.
  unfoldable pub run : ℕ → ArrayParserState × Decoding I → Option (Option CommandDown)
  run n (complete, s) = some (some s.message)
  run n (error, s) = some none
  run n (message_not_supported, s) = some none
  run zero (_, s) = none
  run (suc n) (enter_array, s) = run n (handle_enter_array s)
  run (suc n) (parse_param, s) = run n (handle_param s)
  run (suc n) (leave_array, s) = run n (handle_leave_array s)

  unfoldable pub after_tag : I → CommandDown → Option I → Option (Option CommandDown)
  after_tag a m none = some none
  after_tag a m (some it) =
      run 3 (enter_array, record { main_iter = it; array_iter = a; message = m })

  unfoldable pub parsed : I → CommandDown → Option I → Option (Option CommandDown)
  parsed a m none = some none
  parsed a m (some it) =
      if r.is_tag it then after_tag a (set_id (r.get_tag it) m) (r.advance it) else some none

  -- `array_iter` has no value at first: it is given by the caller.
  unfoldable pub decode : I → CommandDown → List ℕ → Option (Option CommandDown)
  decode a m payload = parsed a m (r.parser_init payload)
