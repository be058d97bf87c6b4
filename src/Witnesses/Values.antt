-- ===== src/Witnesses/Values.antt =====
-- A parser over the parts of a message, and messages decoded with it.
use Prim.Native.String.{String}
use arduino_io_tcloud.Common.{
  ℕ, ◌+◌, ◌≡◌, refl, Bool, true, false, Option, none, some, List, [], ◌∷◌, ◌==◌, ltb, ℤ, pos,
  negsuc,
}
use arduino_io_tcloud.Property.{Methods, no_error, create, read_write}
use arduino_io_tcloud.Property.Attributes.{CborMapData, Doubles, set_bool}
use arduino_io_tcloud.Container.{PropertyContainer, update_property}
use arduino_io_tcloud.CborDecoder.{
  Parser, Floats, CborType, integer_type, text_string_type, array_type, map_type, boolean_type,
  half_float_type, float_type, double_type, other_type, key_state, new_map_data, property_part,
  split_colon,
}
use arduino_io_tcloud.CborDecoder.Machine.{decode}
use arduino_io_tcloud.CborDecoder.Senml.{
  Number, integer, double, single, half, Entry, has_base_version, has_base_name, has_base_time,
  has_name, has_identifier, has_value, has_string_value, has_boolean_value, has_time, unknown, key,
  Message, ShowsEntry, ShowsValue, ShowsEntries, ShowsMap, Shows, meaning, rounds,
}
use arduino_io_tcloud.CborDecoder.Refinement.{decode-meaning}
use arduino_io_tcloud.CborDecoder.Leftovers.{mixed, decode-leftover}

-- A place in a message: before its array, in it, before a key, and before a value.
data Place : Type 0 where
  at_array : Message ℕ → Place
  in_array : Message ℕ → Place
  at_key : List (Entry ℕ) → Place
  at_value : Entry ℕ → List (Entry ℕ) → Place

abbrev number_type : Number ℕ → CborType
number_type (integer n) = integer_type
number_type (double x) = double_type
number_type (single x) = float_type
number_type (half n) = half_float_type

abbrev value_type : Entry ℕ → CborType
value_type (has_base_version n) = integer_type
value_type (has_base_name s) = text_string_type
value_type (has_base_time x) = number_type x
value_type (has_name s) = text_string_type
value_type (has_identifier n) = integer_type
value_type (has_value x) = number_type x
value_type (has_string_value s) = text_string_type
value_type (has_boolean_value b) = boolean_type
value_type (has_time x) = number_type x
value_type (unknown k) = other_type

abbrev type_at : Place → CborType
type_at (at_array ms) = array_type
type_at (in_array []) = other_type
type_at (in_array (es ∷ ms)) = map_type
type_at (at_key []) = other_type
type_at (at_key (e ∷ es)) = integer_type
type_at (at_value e es) = value_type e

abbrev ends : Place → Bool
ends (in_array []) = true
ends (at_key []) = true
ends _ = false

abbrev enter : Place → Option Place
enter (at_array ms) = some (in_array ms)
enter (in_array (es ∷ ms)) = some (at_key es)
enter _ = none

abbrev leave : Place → Place → Option Place
leave (in_array (es ∷ ms)) (at_key []) = some (in_array ms)
leave _ _ = none

abbrev go_on : Place → Option Place
go_on (at_key (e ∷ es)) = some (at_value e es)
go_on (at_value e es) = some (at_key es)
go_on _ = none

abbrev int_at : Place → Option ℤ
int_at (at_key (e ∷ es)) = some (key e)
int_at (at_value (has_base_version n) es) = some n
int_at (at_value (has_identifier n) es) = some n
int_at (at_value (has_value (integer n)) es) = some n
int_at (at_value (has_time (integer n)) es) = some n
int_at (at_value (has_base_time (integer n)) es) = some n
int_at _ = none

abbrev double_at : Place → Option ℕ
double_at (at_value (has_value (double x)) es) = some x
double_at _ = none

abbrev boolean_at : Place → Option Bool
boolean_at (at_value (has_boolean_value b) es) = some b
boolean_at _ = none

abbrev text_at : Place → Option (String × Place)
text_at (at_value (has_name s) es) = some (s, at_key es)
text_at (at_value (has_base_name s) es) = some (s, at_key es)
text_at (at_value (has_string_value s) es) = some (s, at_key es)
text_at _ = none

abbrev parse : Message ℕ → List ℕ → Option Place
parse ms [] = none
parse ms (x ∷ xs) = some (at_array ms)

-- The parser for payloads of one message.
abbrev parser : Message ℕ → Parser Place ℕ
parser ms = record {
  parser_init = parse ms;
  get_type = type_at;
  at_end = ends;
  enter_container = enter;
  leave_container = leave;
  advance = go_on;
  get_int = int_at;
  get_int64 = int_at;
  get_double = double_at;
  get_float = λ i. none;
  get_half_float = λ i. none;
  get_boolean = boolean_at;
  dup_text_string = text_at;
}

abbrev absolute : ℤ → ℕ
absolute (pos n) = n
absolute (negsuc n) = n + 1

abbrev floats : Floats ℕ
floats = record {
  from_int = absolute;
  ldexp = λ n e. n;
  infinity = 0;
  nan = 0;
  negate = λ x. x;
  to_unsigned_long = λ x. x;
  exceeds = λ x t. ltb t x;
}

abbrev doubles : Doubles ℕ ℕ
doubles = record {
  is_zero = λ x. x == 0;
  is_one = λ x. x == 1;
  to_int = pos;
  to_unsigned = λ x. x;
  to_float = λ x. x;
}

-- A property is a number that holds the value of the last of its maps.
abbrev last_value : ℕ → List (CborMapData ℕ) → ℕ
last_value v [] = v
last_value v (md ∷ maps) = last_value md.val.entry maps

abbrev methods : Methods ℕ ℕ ℕ (CborMapData ℕ)
methods = record {
  is_different_from_cloud = λ d v. false;
  from_cloud_to_local = λ v. v;
  from_local_to_cloud = λ v. v;
  append_attributes_to_cloud = λ p n. (no_error, n);
  set_attributes_from_cloud = λ maps v. last_value v maps;
  is_primitive = λ v. true;
  is_changed_locally = λ v. false;
}

abbrev numbers : PropertyContainer ℕ ℕ
numbers =
    record (create 0 5) { name = "x"; permission = read_write; identifier = 1 }
    ∷ record (create 0 6) { name = "y"; permission = read_write; identifier = 2 }
    ∷ []

abbrev blank : CborMapData ℕ
blank = record {
  base_version = record { entry = pos 0; is_set = true };
  base_name = record { entry = ""; is_set = true };
  base_time = record { entry = 77; is_set = true };
  name = record { entry = ""; is_set = true };
  name_identifier = record { entry = pos 0; is_set = true };
  light_payload = record { entry = true; is_set = true };
  attribute_name = record { entry = ""; is_set = true };
  attribute_identifier = record { entry = pos 0; is_set = true };
  val = record { entry = 88; is_set = true };
  str_val = record { entry = ""; is_set = true };
  bool_val = record { entry = true; is_set = true };
  time = record { entry = 99; is_set = true };
}

abbrev first_map : List (Entry ℕ)
first_map = has_base_time (integer (pos 100)) ∷ has_name "x:a" ∷ has_value (double 8) ∷ []

abbrev other_maps : Message ℕ
other_maps =
    (has_identifier (pos 257) ∷ unknown (pos 9) ∷ has_time (integer (pos 3)) ∷ [])
    ∷ (has_name "y" ∷ has_value (integer (pos 4)) ∷ [])
    ∷ []

entry_shown :
    (ms : Message ℕ) (e : Entry ℕ) (es : List (Entry ℕ))
    → ShowsValue (parser ms) (at_value e es) (at_key es) e
    → ShowsEntry (parser ms) (at_key (e ∷ es)) e (at_value e es) (at_key es)
entry_shown ms e es h = record {
  not_at_end = refl;
  is_integer = refl;
  is_key = refl;
  to_value = refl;
  is_value = h;
}

map_shown :
    (all : Message ℕ) (es : List (Entry ℕ)) (ms : Message ℕ)
    → ShowsEntries (parser all) (in_array (es ∷ ms)) (in_array ms) (at_key es) es
    → ShowsMap (parser all) (in_array (es ∷ ms)) es (in_array ms)
map_shown all es ms h = record { is_map = refl; entries = at_key es; enters = refl; shows = h }

shown : Shows (parser (first_map ∷ other_maps)) (0 ∷ []) first_map other_maps
unfolding key_state
shown = record {
  array = at_array (first_map ∷ other_maps);
  parses = refl;
  is_array = refl;
  first = in_array (first_map ∷ other_maps);
  enters = refl;
  shows = (
    _,
    map_shown _ _ _ (
      _,
      _,
      entry_shown _ _ _ ((refl, refl), refl),
      (
        _,
        _,
        entry_shown _ _ _ (refl, refl),
        (_, _, entry_shown _ _ _ ((refl, refl), refl), (refl, refl)),
      ),
    ),
    refl,
    (
      _,
      map_shown _ _ _ (
        _,
        _,
        entry_shown _ _ _ (refl, refl, refl),
        (
          _,
          _,
          entry_shown _ _ _ (refl, refl),
          (_, _, entry_shown _ _ _ ((refl, refl), refl), (refl, refl)),
        ),
      ),
      refl,
      (
        _,
        map_shown _ _ _ (
          _,
          _,
          entry_shown _ _ _ (refl, refl),
          (_, _, entry_shown _ _ _ ((refl, refl), refl), (refl, refl)),
        ),
        refl,
      ),
    ),
  );
}

decode-meaning_example :
    decode
      (parser (first_map ∷ other_maps))
      methods
      floats
      false
      (rounds (first_map ∷ other_maps) 0)
      blank
      (0 ∷ [])
      numbers
    ≡ some (meaning floats methods false (new_map_data blank) (first_map ∷ other_maps) numbers)
decode-meaning_example =
    decode-meaning (parser (first_map ∷ other_maps)) methods floats false 0 blank (0 ∷ []) first_map
      other_maps numbers shown

abbrev boolean_first : Message ℕ
boolean_first = mixed "x" true "y" (integer (pos 0))

mixed_shown :
    Shows
      (parser boolean_first)
      (0 ∷ [])
      (has_name "x" ∷ has_boolean_value true ∷ [])
      ((has_name "y" ∷ has_value (integer (pos 0)) ∷ []) ∷ [])
mixed_shown = record {
  array = at_array boolean_first;
  parses = refl;
  is_array = refl;
  first = in_array boolean_first;
  enters = refl;
  shows = (
    _,
    map_shown _ _ _ (
      _,
      _,
      entry_shown _ _ _ (refl, refl),
      (_, _, entry_shown _ _ _ (refl, refl), (refl, refl)),
    ),
    refl,
    (
      _,
      map_shown _ _ _ (
        _,
        _,
        entry_shown _ _ _ (refl, refl),
        (_, _, entry_shown _ _ _ ((refl, refl), refl), (refl, refl)),
      ),
      refl,
    ),
  );
}

decode-leftover_example :
    (md : CborMapData ℕ) × (md' : CborMapData ℕ) × (decode
        (parser boolean_first)
        methods
        floats
        true
        (rounds boolean_first 0)
        blank
        (0 ∷ [])
        numbers
      ≡ some (
          update_property methods "y" 0 true
            (md' ∷ [])
            (update_property methods "x" 0 true (md ∷ []) numbers)))
    × (set_bool doubles md' false ≡ true)
unfolding split_colon property_part
decode-leftover_example =
    decode-leftover (parser boolean_first) methods floats true doubles 0 blank (0 ∷ []) "x" "y" true
      false (integer (pos 0)) numbers mixed_shown refl refl
