-- ===== src/CommandCodec/Sending.antt =====
-- What `encode` of src/cbor/MessageEncoder.cpp writes.
use Prim.Native.String.{String}
use arduino_io_tcloud.Common.{
  ℕ, suc, ◌≡◌, refl, ap, ◌∙◌, Option, none, some, List, [], ◌∷◌, ℤ, ◌>>=◌, length,
}
use arduino_io_tcloud.Messages.{
  CommandId, device_begin_cmd_id, thing_begin_cmd_id, thing_update_cmd_id, thing_detach_cmd_id,
  device_registered_cmd_id, device_attached_cmd_id, device_detached_cmd_id,
  last_values_begin_cmd_id, last_values_update_cmd_id, properties_update_cmd_id, reset_cmd_id,
  ota_begin_up_id, ota_progress_cmd_up_id, ota_update_cmd_down_id, timezone_command_up_id,
  timezone_command_down_id, unknown_cmd_id,
}
use arduino_io_tcloud.CommandCodec.{to_cbor_command_tag}
use arduino_io_tcloud.CommandCodec.Encoder.{
  ArrayEncoder, CommandUp, Encoders, tagged, opened, with_params, closed, handle_encode_tag,
  handle_encode_array, handle_encode_param, handle_close_array, param_of, run, encode, array_size,
  encode_ota_begin_up, encode_thing_begin_cmd, encode_device_begin_cmd, encode_ota_progress_cmd_up,
  open_sized,
}

pub data Item : Type 0 where
  byte_string : List ℕ → Item
  text_string : String → Item
  simple_value : ℕ → Item
  integer : ℤ → Item
  unsigned : ℕ → Item

-- The contents of a command; none is not for the cloud.
abbrev pub contents_of : CommandId → CommandUp → Option (List Item)
contents_of device_begin_cmd_id m = some (text_string m.lib_version ∷ [])
contents_of thing_begin_cmd_id m = some (text_string m.thing_id ∷ [])
contents_of last_values_begin_cmd_id m = some []
contents_of timezone_command_up_id m = some []
contents_of ota_begin_up_id m = some (byte_string m.sha ∷ [])
contents_of ota_progress_cmd_up_id m =
    some (byte_string m.ota_id ∷ simple_value m.state ∷ integer m.state_data ∷ unsigned m.time ∷ [])
contents_of _ m = none

module _ {E : Type 0} (t : ArrayEncoder E) where
  abbrev pub write : Item → E → Option E
  write (byte_string b) e = t.encode_byte_string b e
  write (text_string s) e = t.encode_text_stringz s e
  write (simple_value n) e = t.encode_simple_value n e
  write (integer k) e = t.encode_int k e
  write (unsigned n) e = t.encode_uint n e

  abbrev pub write_all : List Item → E → Option E
  write_all [] e = some e
  write_all (x ∷ xs) e = write x e >>= write_all xs

  abbrev pub finish : E → E → Option (List ℕ)
  finish e a = t.close_container e a >>= λ f. some (t.written_bytes f)

  -- A tagged array of these items, its size first.
  abbrev pub write_command : ℕ → List Item → E → Option (List ℕ)
  write_command tag xs e = t.encode_tag tag e >>= λ f.
      t.create_array (length xs) f >>= λ r. write_all xs r.1 >>= λ a. finish r.0 a

  run-closed :
      (n : ℕ) (m : CommandUp) (s : Encoders E) (o : Option E)
      → run t n m (closed t s o) ≡ some (o >>= λ f. some (t.written_bytes f))
  unfolding run closed
  run-closed n m s none = refl
  run-closed n m s (some f) = refl

  run-with_params :
      (n : ℕ) (m : CommandUp) (s : Encoders E) (o : Option E)
      → run t (suc n) m (with_params t s o) ≡ some (o >>= finish s.encoder)
  unfolding run with_params handle_close_array
  run-with_params n m s none = refl
  run-with_params n m s (some a) =
      run-closed n m (record s { array_encoder = a }) (t.close_container s.encoder a)

  -- What is left once the array is open.
  run-opened :
      (n : ℕ) (m : CommandUp) (xs : List Item) (s : Encoders E) (o : Option (E × E))
      → ((u : Encoders E) → param_of t m.id m u ≡ with_params t u (write_all xs u.array_encoder))
      → run t (suc (suc n)) m (opened t s o)
        ≡ some (o >>= λ r. write_all xs r.1 >>= λ a. finish r.0 a)
  unfolding run opened handle_encode_param
  run-opened n m xs s none h = refl
  run-opened n m xs s (some (e, a)) h =
      let u : Encoders E = record { encoder = e; array_encoder = a } in
      ap (run t (suc n) m) (h u) ∙ run-with_params n m u (write_all xs a)

  run-tagged :
      (n : ℕ) (m : CommandUp) (xs : List Item) (s : Encoders E) (o : Option E)
      → ((u : Encoders E) → param_of t m.id m u ≡ with_params t u (write_all xs u.array_encoder))
      → array_size m.id ≡ some (length xs)
      → run t (suc (suc (suc n))) m (tagged t s o)
        ≡ some (
            o >>= λ f. t.create_array (length xs) f >>= λ r. write_all xs r.1 >>= λ a. finish r.0 a)
  unfolding run tagged handle_encode_array open_sized
  run-tagged n m xs s none h k = refl
  run-tagged n m xs s (some f) h k =
      let u = record s { encoder = f } in
      ap (λ o. run t (suc (suc n)) m (open_sized t u o)) k
      ∙ run-opened n m xs u (t.create_array (length xs) f) h

  run-unsupported :
      (n : ℕ) (m : CommandUp) (s : Encoders E) (o : Option E)
      → array_size m.id ≡ none
      → run t (suc n) m (tagged t s o) ≡ some none
  unfolding run tagged handle_encode_array open_sized
  run-unsupported n m s none k = refl
  run-unsupported n m s (some f) k =
      ap (λ o. run t n m (open_sized t (record s { encoder = f }) o)) k

  encode-as :
      (c : CommandId) (m : CommandUp) (size : ℕ) (a : E)
      → encode t (record m { id = c }) size a
        ≡ some (
            contents_of c m >>= λ xs.
            write_command (to_cbor_command_tag c) xs (t.encoder_init size))
  unfolding encode run handle_encode_tag to_cbor_command_tag array_size param_of encode_ota_begin_up
      encode_thing_begin_cmd encode_device_begin_cmd encode_ota_progress_cmd_up with_params
  encode-as ota_begin_up_id m size a =
      run-tagged 0 (record m { id = ota_begin_up_id }) (byte_string m.sha ∷ []) _ _ (λ u. refl) refl
  encode-as thing_begin_cmd_id m size a =
      run-tagged 0 (record m { id = thing_begin_cmd_id }) (text_string m.thing_id ∷ []) _ _
        (λ u. refl) refl
  encode-as last_values_begin_cmd_id m size a =
      run-tagged 0 (record m { id = last_values_begin_cmd_id }) ([]) _ _ (λ u. refl) refl
  encode-as device_begin_cmd_id m size a =
      run-tagged 0 (record m { id = device_begin_cmd_id }) (text_string m.lib_version ∷ []) _ _
        (λ u. refl) refl
  encode-as ota_progress_cmd_up_id m size a =
      run-tagged 0 (record m { id = ota_progress_cmd_up_id })
        (byte_string m.ota_id ∷ simple_value m.state ∷ integer m.state_data ∷ unsigned m.time ∷ [])
        _ _ (λ u. refl) refl
  encode-as timezone_command_up_id m size a =
      run-tagged 0 (record m { id = timezone_command_up_id }) ([]) _ _ (λ u. refl) refl
  encode-as ota_update_cmd_down_id m size a =
      run-unsupported 2 (record m { id = ota_update_cmd_down_id }) _ _ refl
  encode-as thing_update_cmd_id m size a =
      run-unsupported 2 (record m { id = thing_update_cmd_id }) _ _ refl
  encode-as thing_detach_cmd_id m size a =
      run-unsupported 2 (record m { id = thing_detach_cmd_id }) _ _ refl
  encode-as last_values_update_cmd_id m size a =
      run-unsupported 2 (record m { id = last_values_update_cmd_id }) _ _ refl
  encode-as timezone_command_down_id m size a =
      run-unsupported 2 (record m { id = timezone_command_down_id }) _ _ refl
  encode-as device_registered_cmd_id m size a = refl
  encode-as device_attached_cmd_id m size a = refl
  encode-as device_detached_cmd_id m size a = refl
  encode-as properties_update_cmd_id m size a = refl
  encode-as reset_cmd_id m size a = refl
  encode-as unknown_cmd_id m size a = refl

  pub encode-contents_of :
      (m : CommandUp) (size : ℕ) (a : E)
      → encode t m size a
        ≡ some (
            contents_of m.id m >>= λ xs.
            write_command (to_cbor_command_tag m.id) xs (t.encoder_init size))
  encode-contents_of m size a = encode-as m.id m size a
