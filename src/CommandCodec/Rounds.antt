-- ===== src/CommandCodec/Rounds.antt =====
-- The loop of `decode` of src/cbor/MessageDecoder.cpp, whatever the payload holds.
use arduino_io_tcloud.Common.{ℕ, ◌≡◌, refl, Option, none, some, List, if_both}
use arduino_io_tcloud.Messages.{
  CommandId, device_begin_cmd_id, thing_begin_cmd_id, thing_update_cmd_id, thing_detach_cmd_id,
  device_registered_cmd_id, device_attached_cmd_id, device_detached_cmd_id,
  last_values_begin_cmd_id, last_values_update_cmd_id, properties_update_cmd_id, reset_cmd_id,
  ota_begin_up_id, ota_progress_cmd_up_id, ota_update_cmd_down_id, timezone_command_up_id,
  timezone_command_down_id, unknown_cmd_id,
}
use arduino_io_tcloud.CommandCodec.Decoder.{
  Reader, CommandDown, Decoding, error, entered, handle_enter_array, left, advanced,
  handle_leave_array, decoded, decode_thing_update_cmd, decode_thing_detach_cmd,
  decode_timezone_command_down, decode_last_values_update_cmd, decode_ota_update_cmd_down, param_of,
  handle_param, run, set_id, after_tag, parsed, decode,
}

-- A loop that has come to its end.
abbrev pub Done : Option (Option CommandDown) → Type 0
Done x = (o : Option CommandDown) × (x ≡ some o)

module _ {I : Type 0} (r : Reader I) where
  left-Done : (s : Decoding I) (o : Option I) → Done (run r 0 (left r s o))
  unfolding run left
  left-Done s none = (none, refl)
  left-Done s (some it) = (some s.message, refl)

  advanced-Done : (s : Decoding I) (o : Option I) → Done (run r 0 (advanced r s o))
  unfolding run advanced
  advanced-Done s none = (none, refl)
  advanced-Done s (some it) =
      left-Done (record s { array_iter = it }) (r.leave_container s.main_iter it)

  decoded-Done : (s : Decoding I) (o : Option (I × CommandDown)) → Done (run r 1 (decoded r s o))
  unfolding run decoded handle_leave_array
  decoded-Done s none = (none, refl)
  decoded-Done s (some (it, m)) =
      advanced-Done (record s { array_iter = it; message = m }) (r.advance it)

  param_of-Done : (c : CommandId) (s : Decoding I) → Done (run r 1 (param_of r c s))
  unfolding run param_of
  param_of-Done device_begin_cmd_id s = (none, refl)
  param_of-Done thing_begin_cmd_id s = (none, refl)
  param_of-Done thing_update_cmd_id s =
      decoded-Done s (decode_thing_update_cmd r s.array_iter s.message)
  param_of-Done thing_detach_cmd_id s =
      decoded-Done s (decode_thing_detach_cmd r s.array_iter s.message)
  param_of-Done device_registered_cmd_id s = (none, refl)
  param_of-Done device_attached_cmd_id s = (none, refl)
  param_of-Done device_detached_cmd_id s = (none, refl)
  param_of-Done last_values_begin_cmd_id s = (none, refl)
  param_of-Done last_values_update_cmd_id s =
      decoded-Done s (decode_last_values_update_cmd r s.array_iter s.message)
  param_of-Done properties_update_cmd_id s = (none, refl)
  param_of-Done reset_cmd_id s = (none, refl)
  param_of-Done ota_begin_up_id s = (none, refl)
  param_of-Done ota_progress_cmd_up_id s = (none, refl)
  param_of-Done ota_update_cmd_down_id s =
      decoded-Done s (decode_ota_update_cmd_down r s.array_iter s.message)
  param_of-Done timezone_command_up_id s = (none, refl)
  param_of-Done timezone_command_down_id s =
      decoded-Done s (decode_timezone_command_down r s.array_iter s.message)
  param_of-Done unknown_cmd_id s = (none, refl)

  entered-Done : (s : Decoding I) (o : Option I) → Done (run r 2 (entered r s o))
  unfolding run entered handle_param
  entered-Done s none = (none, refl)
  entered-Done s (some it) = param_of-Done s.message.id (record s { array_iter = it })

  after_tag-Done : (a : I) (m : CommandDown) (o : Option I) → Done (after_tag r a m o)
  unfolding run after_tag handle_enter_array
  after_tag-Done a m none = (none, refl)
  after_tag-Done a m (some it) =
      let s : Decoding I = record { main_iter = it; array_iter = a; message = m } in
      if_both (λ x. Done (run r 2 x)) (r.is_array it) (entered r s (r.enter_container it))
        (error, s) (entered-Done s (r.enter_container it)) (none, refl)

  parsed-Done : (a : I) (m : CommandDown) (o : Option I) → Done (parsed r a m o)
  unfolding parsed
  parsed-Done a m none = (none, refl)
  parsed-Done a m (some it) =
      let n = set_id (r.get_tag it) m in
      if_both Done (r.is_tag it) (after_tag r a n (r.advance it)) (some none)
        (after_tag-Done a n (r.advance it)) (none, refl)

  pub decode-Done :
      (a : I) (m : CommandDown) (payload : List ℕ)
      → (o : Option CommandDown) × (decode r a m payload ≡ some o)
  unfolding decode
  decode-Done a m payload = parsed-Done a m (r.parser_init payload)
