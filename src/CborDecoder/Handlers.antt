-- ===== src/CborDecoder/Handlers.antt =====
-- The handlers of src/cbor/CBORDecoder.cpp for the entries of a map.
use Prim.Native.String.{String}
use arduino_io_tcloud.Common.{true, Option, none, some, if◌then◌else◌, ℤ}
use arduino_io_tcloud.Property.Attributes.{CborMapData}
use arduino_io_tcloud.Container.{PropertyContainer}
use arduino_io_tcloud.CborDecoder.{
  Parser, Floats, Decoding, MapParserState, map_key, leave_map, error, CborType, integer_type,
  text_string_type, map_type, set, attribute_part, low_byte, high_bytes, name_of_identifier,
  if_numeric_convert_to_double, key_state,
}

module _ {V D I F : Type 0} where
  -- `map_data.x.set(...)`.
  abbrev pub change : (CborMapData F → CborMapData F) → Decoding V D I F → Decoding V D I F
  change f s = record s { map_data = f s.map_data }

  -- The value iterator after a call: an error ends in `Error`.
  abbrev pub moved :
      MapParserState → Option I → Decoding V D I F → MapParserState × Decoding V D I F
  moved st none s = (error, s)
  moved st (some j) s = (st, record s { value_iter = j })

  -- A value that was read is stored, and the iterator goes on if the value was not a string.
  abbrev pub stored :
      {A : Type 0}
      → (A → CborMapData F → CborMapData F)
      → Option A
      → Option I
      → Decoding V D I F
      → MapParserState × Decoding V D I F
  stored f none next s = (error, s)
  stored f (some x) next s = moved map_key next (change (f x) s)

  abbrev pub stored_text :
      (String → CborMapData F → CborMapData F)
      → Option (String × I)
      → Decoding V D I F
      → MapParserState × Decoding V D I F
  stored_text f none s = (error, s)
  stored_text f (some (x, j)) s = moved map_key (some j) (change (f x) s)

-- The members of `map_data` that a name sets.
abbrev pub set_name : {F : Type 0} → String → CborMapData F → CborMapData F
set_name x md = record md { name = set x; attribute_name = set (attribute_part x) }

abbrev pub set_identifier :
    {V D F : Type 0} → PropertyContainer V D → ℤ → CborMapData F → CborMapData F
set_identifier c n md = record md {
  light_payload = set true;
  name_identifier = set (low_byte n);
  attribute_identifier = set (high_bytes n);
  name = set (name_of_identifier n c);
}

module _ {V D I F : Type 0} (p : Parser I F) where
  abbrev pub entered : CborType → Decoding V D I F → MapParserState × Decoding V D I F
  entered map_type s = moved map_key (p.enter_container s.map_iter) s
  entered _ s = (error, s)

  unfoldable pub handle_enter_map : Decoding V D I F → MapParserState × Decoding V D I F
  handle_enter_map s = entered (p.get_type s.map_iter) s

  abbrev pub keyed : Option ℤ → Decoding V D I F → MapParserState × Decoding V D I F
  keyed none s = (error, s)
  keyed (some n) s = moved (key_state n) (p.advance s.value_iter) s

  abbrev pub key_of_type : CborType → Decoding V D I F → MapParserState × Decoding V D I F
  key_of_type integer_type s = keyed (p.get_int s.value_iter) s
  key_of_type _ s = (error, s)

  unfoldable pub handle_map_key : Decoding V D I F → MapParserState × Decoding V D I F
  handle_map_key s =
      if p.at_end s.value_iter then (leave_map, s) else key_of_type (p.get_type s.value_iter) s

  unfoldable pub handle_undefined_key : Decoding V D I F → MapParserState × Decoding V D I F
  handle_undefined_key s = moved map_key (p.advance s.value_iter) s

  abbrev pub version_of_type : CborType → Decoding V D I F → MapParserState × Decoding V D I F
  version_of_type integer_type s =
      stored (λ n md. record md { base_version = set n }) (p.get_int s.value_iter)
        (p.advance s.value_iter) s
  version_of_type _ s = (error, s)

  unfoldable pub handle_base_version : Decoding V D I F → MapParserState × Decoding V D I F
  handle_base_version s = version_of_type (p.get_type s.value_iter) s

  abbrev pub text_of_type :
      (String → CborMapData F → CborMapData F)
      → CborType
      → Decoding V D I F
      → MapParserState × Decoding V D I F
  text_of_type f text_string_type s = stored_text f (p.dup_text_string s.value_iter) s
  text_of_type f _ s = (error, s)

  unfoldable pub handle_base_name : Decoding V D I F → MapParserState × Decoding V D I F
  handle_base_name s =
      text_of_type (λ x md. record md { base_name = set x }) (p.get_type s.value_iter) s

  unfoldable pub handle_string_value : Decoding V D I F → MapParserState × Decoding V D I F
  handle_string_value s =
      text_of_type (λ x md. record md { str_val = set x }) (p.get_type s.value_iter) s

  abbrev pub name_of_type : CborType → Decoding V D I F → MapParserState × Decoding V D I F
  name_of_type text_string_type s = stored_text set_name (p.dup_text_string s.value_iter) s
  name_of_type integer_type s =
      stored (set_identifier s.property_container) (p.get_int s.value_iter) (p.advance s.value_iter)
        s
  name_of_type _ s = (error, s)

  unfoldable pub handle_name : Decoding V D I F → MapParserState × Decoding V D I F
  handle_name s = name_of_type (p.get_type s.value_iter) s

  unfoldable pub handle_boolean_value : Decoding V D I F → MapParserState × Decoding V D I F
  handle_boolean_value s =
      stored (λ b md. record md { bool_val = set b }) (p.get_boolean s.value_iter)
        (p.advance s.value_iter) s

module _ {V D I F : Type 0} (p : Parser I F) (d : Floats F) where
  abbrev pub handle_number :
      (F → CborMapData F → CborMapData F) → Decoding V D I F → MapParserState × Decoding V D I F
  handle_number f s =
      stored f (if_numeric_convert_to_double p d s.value_iter) (p.advance s.value_iter) s

  unfoldable pub handle_base_time : Decoding V D I F → MapParserState × Decoding V D I F
  handle_base_time s = handle_number (λ x md. record md { base_time = set x }) s

  unfoldable pub handle_value : Decoding V D I F → MapParserState × Decoding V D I F
  handle_value s = handle_number (λ x md. record md { val = set x }) s

  unfoldable pub handle_time : Decoding V D I F → MapParserState × Decoding V D I F
  handle_time s = handle_number (λ x md. record md { time = set x }) s
