-- ===== src/CborDecoder/Machine.antt =====
-- The end of a map in src/cbor/CBORDecoder.cpp, and the loop over the states.
use Prim.Native.String.{String}
use text.Mathlib.Text.{◌==◌ as str_eq}
use arduino_io_tcloud.Common.{
  ℕ, zero, suc, ◌+◌, ◌%◌, Bool, true, false, not, ◌&&◌, Option, none, some, List, [], ◌∷◌, ◌++◌,
  if◌then◌else◌, u32_mod,
}
use arduino_io_tcloud.Property.{Methods}
use arduino_io_tcloud.Property.Attributes.{CborMapData}
use arduino_io_tcloud.Container.{PropertyContainer, update_property}
use arduino_io_tcloud.CborDecoder.{
  Parser, Floats, Decoding, MapParserState, enter_map, map_key, undefined_key, base_version,
  base_name, base_time, name, value, string_value, boolean_value, time, leave_map, complete, error,
  CborType, array_type, new_map_data, property_part,
}
use arduino_io_tcloud.CborDecoder.Handlers.{
  handle_enter_map, handle_map_key, handle_undefined_key, handle_base_version, handle_base_name,
  handle_base_time, handle_name, handle_value, handle_string_value, handle_boolean_value,
  handle_time,
}

-- The two times of the current property after one more of its maps.
module _ {F : Type 0} (d : Floats F) where
  unfoldable pub next_base_time : CborMapData F → ℕ → ℕ
  next_base_time md t = if md.base_time.is_set then d.to_unsigned_long md.base_time.entry else t

  unfoldable pub next_time : CborMapData F → ℕ → ℕ
  next_time md t =
      if md.time.is_set && d.exceeds md.time.entry t then d.to_unsigned_long md.time.entry else t

module _ {V D E I F : Type 0} (m : Methods V D E (CborMapData F)) (is_sync_message : Bool) where
  -- `updateProperty` for the current property.
  abbrev pub update_current : Decoding V D I F → PropertyContainer V D
  update_current s =
      update_property m s.current_property_name
        ((s.current_property_base_time + s.current_property_time) % u32_mod) is_sync_message
        s.map_data_list s.property_container

  -- The change to another property.
  unfoldable pub change_property : String → Decoding V D I F → Decoding V D I F
  change_property property_name s =
      if not (str_eq s.current_property_name "")
        && not (str_eq property_name s.current_property_name)
      then record s {
        property_container = update_current s;
        map_data_list = [];
        current_property_base_time = 0;
        current_property_time = 0;
      }
      else s

module _ {V D E I F : Type 0} (m : Methods V D E (CborMapData F)) (d : Floats F)
    (is_sync_message : Bool) where
  abbrev pub add_map : String → Decoding V D I F → Decoding V D I F
  add_map property_name s = record s {
    current_property_base_time = next_base_time d s.map_data s.current_property_base_time;
    current_property_time = next_time d s.map_data s.current_property_time;
    map_data_list = s.map_data_list ++ s.map_data ∷ [];
    current_property_name = property_name;
  }

  -- The first part of `handle_LeaveMap`.
  unfoldable pub take_map : Decoding V D I F → Decoding V D I F
  take_map s =
      let property_name = property_part s.map_data.name.entry in
      if s.map_data.name.is_set
      then add_map property_name (change_property m is_sync_message property_name s)
      else s

module _ {V D E I F : Type 0} (p : Parser I F) (m : Methods V D E (CborMapData F)) (d : Floats F)
    (is_sync_message : Bool) where
  abbrev pub next_map : Bool → Decoding V D I F → MapParserState × Decoding V D I F
  next_map false s = (enter_map, s)
  next_map true s = (
    complete,
    record s { property_container = update_current m is_sync_message s; map_data_list = [] },
  )

  abbrev pub left : Option I → Decoding V D I F → MapParserState × Decoding V D I F
  left none s = (error, s)
  left (some i) s = next_map (p.at_end i) (record s { map_iter = i })

  unfoldable pub handle_leave_map : Decoding V D I F → MapParserState × Decoding V D I F
  handle_leave_map s =
      left (p.leave_container s.map_iter s.value_iter) (take_map m d is_sync_message s)

  -- The switch of `decode`.
  unfoldable pub step : MapParserState → Decoding V D I F → MapParserState × Decoding V D I F
  step enter_map s = handle_enter_map p s
  step map_key s = handle_map_key p s
  step undefined_key s = handle_undefined_key p s
  step base_version s = handle_base_version p s
  step base_name s = handle_base_name p s
  step base_time s = handle_base_time p d s
  step time s = handle_time p d s
  step name s = handle_name p s
  step value s = handle_value p d s
  step string_value s = handle_string_value p s
  step boolean_value s = handle_boolean_value p s
  step leave_map s = handle_leave_map s
  step complete s = (complete, s)
  step error s = (error, s)

  -- Its loop, with the rounds it may take; none if they do not do.
  unfoldable pub run : ℕ → MapParserState → Decoding V D I F → Option (PropertyContainer V D)
  run n complete s = some s.property_container
  run n error s = some s.property_container
  run zero st s = none
  run (suc n) st s = let r = step st s in run n r.0 r.1

  abbrev pub start : CborMapData F → PropertyContainer V D → I → Decoding V D I F
  start memory c i = record {
    property_container = c;
    map_iter = i;
    value_iter = i;
    map_data = new_map_data memory;
    current_property_name = "";
    current_property_base_time = 0;
    current_property_time = 0;
    map_data_list = [];
  }

  abbrev pub run_from :
      ℕ → CborMapData F → PropertyContainer V D → Option I → Option (PropertyContainer V D)
  run_from n memory c none = some c
  run_from n memory c (some i) = run n enter_map (start memory c i)

  abbrev pub parsed :
      ℕ → CborMapData F → PropertyContainer V D → CborType → I → Option (PropertyContainer V D)
  parsed n memory c array_type i = run_from n memory c (p.enter_container i)
  parsed n memory c _ i = some c

  -- `decode`; `memory` is what lies in `map_data` before it is constructed.
  unfoldable pub decode :
      ℕ → CborMapData F → List ℕ → PropertyContainer V D → Option (PropertyContainer V D)
  decode n memory payload c = elim (p.parser_init payload) [
    | some i ↦ parsed n memory c (p.get_type i) i
    | none ↦ some c
  ]
