-- ===== src/CborDecoder/Entries.antt =====
-- How the loop of src/cbor/CBORDecoder.cpp goes through the entries of a map.
use Prim.Native.String.{String}
use arduino_io_tcloud.Common.{ℕ, suc, ◌≡◌, refl, ap, ◌∙◌, Bool, true, some, List, [], ◌∷◌, ℤ}
use arduino_io_tcloud.Property.{Methods}
use arduino_io_tcloud.Property.Attributes.{CborMapData}
use arduino_io_tcloud.CborDecoder.{
  Parser, Floats, Decoding, MapParserState, enter_map, map_key, undefined_key, base_version,
  base_name, base_time, name, value, string_value, boolean_value, time, leave_map, complete, error,
  name_of_identifier, if_numeric_convert_to_double, key_state,
}
use arduino_io_tcloud.CborDecoder.Handlers.{
  change, handle_number, handle_map_key, handle_undefined_key, handle_base_version,
  handle_base_name, handle_base_time, handle_name, handle_value, handle_string_value,
  handle_boolean_value, handle_time,
}
use arduino_io_tcloud.CborDecoder.Machine.{step, run}
use arduino_io_tcloud.CborDecoder.Senml.{
  Number, integer, double, single, half, Entry, has_base_version, has_base_name, has_base_time,
  has_name, has_identifier, has_value, has_string_value, has_boolean_value, has_time, unknown, key,
  ShowsNumber, ShowsValue, ShowsEntry, ShowsEntries, number, put, put_all, entry_rounds,
}

module _ {I F : Type 0} (p : Parser I F) (d : Floats F) where
  numeric :
      (i : I) (x : Number F)
      → ShowsNumber p i x
      → if_numeric_convert_to_double p d i ≡ some (number d x)
  unfolding if_numeric_convert_to_double
  numeric i (integer n) h = rw (h.0, h.1)
  numeric i (double x) h = rw (h.0, h.1)
  numeric i (single x) h = rw (h.0, h.1)
  numeric i (half n) h = rw (h.0, h.1)

module _ {V D E I F : Type 0} (p : Parser I F) (m : Methods V D E (CborMapData F)) (d : Floats F)
    (sync : Bool) where
  -- A round of the loop.
  pub run-step :
      (n : ℕ) (st : MapParserState) (s : Decoding V D I F)
      → run p m d sync (suc n) st s
        ≡ run p m d sync n (step p m d sync st s).0 (step p m d sync st s).1
  unfolding run step
  run-step n enter_map s = refl
  run-step n map_key s = refl
  run-step n undefined_key s = refl
  run-step n base_version s = refl
  run-step n base_name s = refl
  run-step n base_time s = refl
  run-step n name s = refl
  run-step n value s = refl
  run-step n string_value s = refl
  run-step n boolean_value s = refl
  run-step n time s = refl
  run-step n leave_map s = refl
  run-step n complete s = refl
  run-step n error s = refl

  pub run-to :
      (n : ℕ) (st st' : MapParserState) (s s' : Decoding V D I F)
      → step p m d sync st s ≡ (st', s')
      → run p m d sync (suc n) st s ≡ run p m d sync n st' s'
  run-to n st st' s s' e = run-step n st s ∙ ap (λ r. run p m d sync n r.0 r.1) e

  abbrev pub at : I → Decoding V D I F → Decoding V D I F
  at i s = record s { value_iter = i }

  step-key :
      (i j k : I) (e : Entry F) (s : Decoding V D I F)
      → ShowsEntry p i e j k
      → step p m d sync map_key (at i s) ≡ (key_state (key e), at j s)
  unfolding step handle_map_key
  step-key i j k e s h = rw (h.not_at_end, h.is_integer, h.is_key, h.to_value)

  abbrev pub names_in : Decoding V D I F → ℤ → String
  names_in s n = name_of_identifier n s.property_container

  step-number :
      (i j : I) (x : Number F) (f : F → CborMapData F → CborMapData F) (s : Decoding V D I F)
      → ShowsNumber p i x × (p.advance i ≡ some j)
      → handle_number p d f (at i s) ≡ (map_key, at j (change (f (number d x)) s))
  step-number i j x f s h = rw (numeric p d i x h.0, h.1)

  step-value :
      (i j : I) (e : Entry F) (s : Decoding V D I F)
      → ShowsValue p i j e
      → step p m d sync (key_state (key e)) (at i s)
        ≡ (map_key, at j (change (put d (names_in s) e) s))
  unfolding step key_state handle_undefined_key handle_base_version handle_base_name
      handle_base_time handle_name handle_value handle_string_value handle_boolean_value handle_time
  step-value i j (has_base_version n) s h = rw (h.0, h.1, h.2)
  step-value i j (has_base_name x) s h = rw (h.0, h.1)
  step-value i j (has_base_time x) s h = step-number i j x _ s h
  step-value i j (has_name x) s h = rw (h.0, h.1)
  step-value i j (has_identifier n) s h = rw (h.0, h.1, h.2)
  step-value i j (has_value x) s h = step-number i j x _ s h
  step-value i j (has_string_value x) s h = rw (h.0, h.1)
  step-value i j (has_boolean_value b) s h = rw (h.0, h.1)
  step-value i j (has_time x) s h = step-number i j x _ s h
  step-value i j (unknown k) s h = rw (h.0, h.1)

  run-entry :
      (n : ℕ) (i j k : I) (e : Entry F) (s : Decoding V D I F)
      → ShowsEntry p i e j k
      → run p m d sync (suc (suc n)) map_key (at i s)
        ≡ run p m d sync n map_key (at k (change (put d (names_in s) e) s))
  run-entry n i j k e s h =
      run-to (suc n) map_key (key_state (key e)) (at i s) (at j s) (step-key i j k e s h)
      ∙ run-to n (key_state (key e)) map_key (at j s) (at k (change (put d (names_in s) e) s))
          (step-value j k e s h.is_value)

  step-end :
      (j : I) (s : Decoding V D I F)
      → p.at_end j ≡ true
      → step p m d sync map_key (at j s) ≡ (leave_map, at j s)
  unfolding step handle_map_key
  step-end j s h = rw h

  -- The entries of a map, up to its end at some `j'`.
  pub run-entries :
      (n : ℕ) (i i' j : I) (es : List (Entry F)) (s : Decoding V D I F)
      → ShowsEntries p i i' j es
      → (j' : I) × (p.leave_container i j' ≡ some i')
        × (run p m d sync (entry_rounds es n) map_key (at j s)
            ≡ run p m d sync n leave_map (at j' (change (put_all d (names_in s) es) s)))
  unfolding put_all
  run-entries n i i' j [] s h =
      (j, h.1, run-to n map_key leave_map (at j s) (at j s) (step-end j s h.0))
  run-entries n i i' j (e ∷ es) s (v, k, shown, rest) =
      let (j', l, r) = run-entries n i i' k es (change (put d (names_in s) e) s) rest in
      (j', l, run-entry (entry_rounds es n) j v k e s shown ∙ r)
