-- ===== src/CommandCodec/Receiving.antt =====
-- What `decode` of src/cbor/MessageDecoder.cpp makes of a tagged array of parameters.
use arduino_io_tcloud.Common.{
  ℕ, suc, ◌≤◌, ◌≡◌, refl, ap, ◌∙◌, Option, none, some, List, [], ◌∷◌, ◌>>=◌, length, if◌then◌else◌,
  arith,
}
use arduino_io_tcloud.Messages.{
  CommandId, device_begin_cmd_id, thing_begin_cmd_id, thing_update_cmd_id, thing_detach_cmd_id,
  device_registered_cmd_id, device_attached_cmd_id, device_detached_cmd_id,
  last_values_begin_cmd_id, last_values_update_cmd_id, properties_update_cmd_id, reset_cmd_id,
  ota_begin_up_id, ota_progress_cmd_up_id, ota_update_cmd_down_id, timezone_command_up_id,
  timezone_command_down_id, unknown_cmd_id,
}
use arduino_io_tcloud.CommandCodec.{to_command_id}
use arduino_io_tcloud.CommandCodec.Decoder.{
  Reader, CommandDown, Decoding, set_offset, set_until, copy_cbor_string_to_array,
  copy_cbor_byte_to_array, entered, handle_enter_array, left, advanced, handle_leave_array, decoded,
  decode_thing_update_cmd, decode_thing_detach_cmd, decode_timezone_command_down,
  decode_last_values_update_cmd, decode_ota_update_cmd_down, param_of, handle_param, run, set_id,
  after_tag, parsed, decode, error,
}
use arduino_io_tcloud.CommandCodec.Params.{
  Param, bytes, text, integer, other_param, bytes_at, text_at, rest_of, if_present, offset_at,
  until_at, last_values_at, meaning, arity, Moves, Reads, IsPayload,
}

module _ {I : Type 0} (r : Reader I) (At : I → List Param → Type 0) (l : Reads r At) where
  text-lem :
      (it : I) (xs : List Param) (dest : List ℕ)
      → At it xs
      → copy_cbor_string_to_array r it dest ≡ text_at xs dest
  unfolding copy_cbor_string_to_array
  text-lem it [] dest h = rw (l.reads_text it _ h)
  text-lem it (text b ∷ xs) dest h = rw (l.reads_text it _ h, l.copies_text it b xs dest h)
  text-lem it (bytes b ∷ xs) dest h = rw (l.reads_text it _ h)
  text-lem it (integer i n ∷ xs) dest h = rw (l.reads_text it _ h)
  text-lem it (other_param ∷ xs) dest h = rw (l.reads_text it _ h)

  bytes-lem :
      (it : I) (xs : List Param) (dest : List ℕ)
      → At it xs
      → copy_cbor_byte_to_array r it dest ≡ bytes_at xs dest
  unfolding copy_cbor_byte_to_array
  bytes-lem it [] dest h = rw (l.reads_bytes it _ h)
  bytes-lem it (bytes b ∷ xs) dest h = rw (l.reads_bytes it _ h, l.copies_bytes it b xs dest h)
  bytes-lem it (text b ∷ xs) dest h = rw (l.reads_bytes it _ h)
  bytes-lem it (integer i n ∷ xs) dest h = rw (l.reads_bytes it _ h)
  bytes-lem it (other_param ∷ xs) dest h = rw (l.reads_bytes it _ h)

  -- What is left once the parameters are read, with the result `o` of their decoder.
  abbrev pub finish : Decoding I → Option (I × CommandDown) → Option (Option CommandDown)
  finish s o = run r 1 (decoded r s o)

  finish-then :
      {A : Type 0} (s : Decoding I) (o : Option A) (k : A → Option (I × CommandDown))
      (g : A → Option CommandDown)
      → ((a : A) → finish s (k a) ≡ some (g a))
      → finish s (o >>= k) ≡ some (o >>= g)
  unfolding run decoded
  finish-then s none k g h = refl
  finish-then s (some a) k g h = h a

  finish-moved :
      (s : Decoding I) (n : ℕ) (xs : List Param) (o : Option I) (k : I → Option (I × CommandDown))
      (g : List Param → Option CommandDown)
      → Moves At o xs
      → length xs ≤ suc n
      → ((jt : I) (ys : List Param) → At jt ys → length ys ≤ n → finish s (k jt) ≡ some (g ys))
      → finish s (o >>= k) ≡ some (rest_of xs >>= g)
  unfolding run decoded
  finish-moved s n [] none k g m e h = refl
  finish-moved s n [] (some jt) k g m e h = absurd m
  finish-moved s n (x ∷ xs) none k g m e h = absurd m
  finish-moved s n (x ∷ xs) (some jt) k g m e h = h jt xs m (omega arith)

  finish-present :
      (s : Decoding I) (m : CommandDown) (it : I) (xs : List Param) (o : Option I)
      → r.advance it ≡ o
      → Moves At o xs
      → length xs ≤ 1
      → finish s (some (it, m)) ≡ some (if_present xs m)
  unfolding run decoded handle_leave_array advanced left
  finish-present s m it [] none e h k =
      let u = record s { array_iter = it; message = m } in ap (λ o. run r 0 (advanced r u o)) e
  finish-present s m it [] (some jt) e h k = absurd h
  finish-present s m it (x ∷ xs) none e h k = absurd h
  finish-present s m it (x ∷ []) (some jt) e h k =
      let u = record s { array_iter = it; message = m } in
      let v = record u { array_iter = jt } in
      ap (λ o. run r 0 (advanced r u o)) e
      ∙ ap (λ o. run r 0 (left r v o)) (l.leaves s.main_iter jt h).1
  finish-present s m it (x ∷ y ∷ xs) (some jt) e h k = absurd (omega arith)

  finish-last :
      (s : Decoding I) (m : CommandDown) (it : I) (xs : List Param)
      → At it xs
      → length xs ≤ 1
      → finish s (some (it, m)) ≡ some (if_present xs m)
  finish-last s m it xs h k = finish-present s m it xs (r.advance it) refl (l.advances it xs h) k

  -- Reading a text, a byte string and the next parameter.
  finish-text :
      (s : Decoding I) (it : I) (xs : List Param) (dest : List ℕ)
      (k : List ℕ → Option (I × CommandDown)) (g : List ℕ → Option CommandDown)
      → At it xs
      → ((b : List ℕ) → finish s (k b) ≡ some (g b))
      → finish s (copy_cbor_string_to_array r it dest >>= k) ≡ some (text_at xs dest >>= g)
  finish-text s it xs dest k g h f =
      ap (λ o. finish s (o >>= k)) (text-lem it xs dest h) ∙ finish-then s (text_at xs dest) k g f

  finish-bytes :
      (s : Decoding I) (it : I) (xs : List Param) (dest : List ℕ)
      (k : List ℕ → Option (I × CommandDown)) (g : List ℕ → Option CommandDown)
      → At it xs
      → ((b : List ℕ) → finish s (k b) ≡ some (g b))
      → finish s (copy_cbor_byte_to_array r it dest >>= k) ≡ some (bytes_at xs dest >>= g)
  finish-bytes s it xs dest k g h f =
      ap (λ o. finish s (o >>= k)) (bytes-lem it xs dest h) ∙ finish-then s (bytes_at xs dest) k g f

  finish-advance :
      (s : Decoding I) (n : ℕ) (it : I) (xs : List Param) (k : I → Option (I × CommandDown))
      (g : List Param → Option CommandDown)
      → At it xs
      → length xs ≤ suc n
      → ((jt : I) (ys : List Param) → At jt ys → length ys ≤ n → finish s (k jt) ≡ some (g ys))
      → finish s (r.advance it >>= k) ≡ some (rest_of xs >>= g)
  finish-advance s n it xs k g h e f =
      finish-moved s n xs (r.advance it) k g (l.advances it xs h) e f

  finish-thing :
      (s : Decoding I) (it : I) (xs : List Param) (m : CommandDown)
      → At it xs
      → length xs ≤ 1
      → finish s (decode_thing_update_cmd r it m)
        ≡ some (text_at xs m.thing_id >>= λ b. if_present xs (record m { thing_id = b }))
  unfolding decode_thing_update_cmd
  finish-thing s it xs m h k = finish-text s it xs m.thing_id _ _ h (λ b. finish-last s _ it xs h k)

  until-lem :
      (it : I) (xs : List Param) (m : CommandDown)
      → At it xs
      → (if r.is_integer it then set_until (r.get_uint64 it) m else m) ≡ until_at xs m
  until-lem it [] m h = rw (l.reads_number it _ h)
  until-lem it (text b ∷ xs) m h = rw (l.reads_number it _ h)
  until-lem it (bytes b ∷ xs) m h = rw (l.reads_number it _ h)
  until-lem it (integer i n ∷ xs) m h = rw (l.reads_number it _ h, l.gets_uint64 it i n xs h)
  until-lem it (other_param ∷ xs) m h = rw (l.reads_number it _ h)

  offset-lem :
      (it : I) (xs : List Param) (m : CommandDown)
      → At it xs
      → (if r.is_integer it then set_offset (r.get_int64 it) m else m) ≡ offset_at xs m
  offset-lem it [] m h = rw (l.reads_number it _ h)
  offset-lem it (text b ∷ xs) m h = rw (l.reads_number it _ h)
  offset-lem it (bytes b ∷ xs) m h = rw (l.reads_number it _ h)
  offset-lem it (integer i n ∷ xs) m h = rw (l.reads_number it _ h, l.gets_int64 it i n xs h)
  offset-lem it (other_param ∷ xs) m h = rw (l.reads_number it _ h)

  finish-timezone :
      (s : Decoding I) (it : I) (xs : List Param) (m : CommandDown)
      → At it xs
      → length xs ≤ 2
      → finish s (decode_timezone_command_down r it m)
        ≡ some (rest_of xs >>= λ ys. if_present ys (until_at ys (offset_at xs m)))
  unfolding decode_timezone_command_down
  finish-timezone s it xs m h k = finish-advance s 1 it xs _ _ h k (λ jt ys f e.
      ap (λ n. finish s (some (jt, if r.is_integer jt then set_until (r.get_uint64 jt) n else n)))
        (offset-lem it xs m h)
      ∙ ap (λ n. finish s (some (jt, n))) (until-lem jt ys (offset_at xs m) f)
      ∙ finish-last s _ jt ys f e)

  last_values-lem :
      (it : I) (xs : List Param) (m : CommandDown)
      → At it xs
      → decode_last_values_update_cmd r it m ≡ some (it, last_values_at xs m)
  unfolding decode_last_values_update_cmd
  last_values-lem it [] m h = rw (l.reads_bytes it _ h)
  last_values-lem it (text b ∷ xs) m h = rw (l.reads_bytes it _ h)
  last_values-lem it (bytes b ∷ xs) m h = rw (l.reads_bytes it _ h, l.duplicates it b xs h)
  last_values-lem it (integer i n ∷ xs) m h = rw (l.reads_bytes it _ h)
  last_values-lem it (other_param ∷ xs) m h = rw (l.reads_bytes it _ h)

  finish-ota :
      (s : Decoding I) (it : I) (xs : List Param) (m : CommandDown)
      → At it xs
      → length xs ≤ 4
      → finish s (decode_ota_update_cmd_down r it m) ≡ some (meaning ota_update_cmd_down_id xs m)
  unfolding decode_ota_update_cmd_down
  finish-ota s it xs m h k = finish-bytes s it xs m.ota_id _ _ h (λ id.
      finish-advance s 3 it xs _ _ h k (λ jt ys hy ky. finish-text s jt ys m.url _ _ hy (λ url.
        finish-advance s 2 jt ys _ _ hy ky (λ kt zs hz kz.
          finish-bytes s kt zs m.initial_sha256 _ _ hz (λ initial.
            finish-advance s 1 kt zs _ _ hz kz (λ lt ws hw kw.
              finish-bytes s lt ws m.final_sha256 _ _ hw
                (λ final. finish-last s _ lt ws hw kw)))))))

  run-param_of :
      (c : CommandId) (s : Decoding I) (xs : List Param)
      → At s.array_iter xs
      → length xs ≤ arity c
      → run r 1 (param_of r c s) ≡ some (meaning c xs s.message)
  unfolding param_of run decode_thing_detach_cmd decode_thing_update_cmd
  run-param_of thing_update_cmd_id s xs h k = finish-thing s s.array_iter xs s.message h k
  run-param_of thing_detach_cmd_id s xs h k = finish-thing s s.array_iter xs s.message h k
  run-param_of timezone_command_down_id s xs h k = finish-timezone s s.array_iter xs s.message h k
  run-param_of ota_update_cmd_down_id s xs h k = finish-ota s s.array_iter xs s.message h k
  run-param_of last_values_update_cmd_id s xs h k =
      ap (finish s) (last_values-lem s.array_iter xs s.message h)
      ∙ finish-last s (last_values_at xs s.message) s.array_iter xs h k
  run-param_of device_begin_cmd_id s xs h k = refl
  run-param_of thing_begin_cmd_id s xs h k = refl
  run-param_of device_registered_cmd_id s xs h k = refl
  run-param_of device_attached_cmd_id s xs h k = refl
  run-param_of device_detached_cmd_id s xs h k = refl
  run-param_of last_values_begin_cmd_id s xs h k = refl
  run-param_of properties_update_cmd_id s xs h k = refl
  run-param_of reset_cmd_id s xs h k = refl
  run-param_of ota_begin_up_id s xs h k = refl
  run-param_of ota_progress_cmd_up_id s xs h k = refl
  run-param_of timezone_command_up_id s xs h k = refl
  run-param_of unknown_cmd_id s xs h k = refl

  pub decode-meaning_of :
      (a : I) (m : CommandDown) (payload : List ℕ) (tag : ℕ) (xs : List Param)
      → IsPayload r At payload tag xs
      → length xs ≤ arity (to_command_id tag)
      → decode r a m payload
        ≡ some (meaning (to_command_id tag) xs (record m { id = to_command_id tag }))
  unfolding decode parsed after_tag set_id run handle_enter_array entered handle_param
  decode-meaning_of a m payload tag xs p k =
      let n = record m { id = to_command_id tag } in
      let s : Decoding I = record { main_iter = p.in_main; array_iter = a; message = n } in
      ap (parsed r a m) p.parses
      ∙ ap
          (λ b.
            if b
            then after_tag r a (set_id (r.get_tag p.main_iter) m) (r.advance p.main_iter)
            else some none)
          p.is_tagged
      ∙ ap (λ o. after_tag r a (set_id o m) (r.advance p.main_iter)) p.has_tag
      ∙ ap (after_tag r a n) p.advances_to
      ∙ ap (λ b. run r 2 (if b then entered r s (r.enter_container p.in_main) else (error, s)))
          p.has_array
      ∙ ap (λ o. run r 2 (entered r s o)) p.enters
      ∙ run-param_of (to_command_id tag) (record s { array_iter = p.in_array }) xs p.at_params k
