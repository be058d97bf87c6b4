-- ===== src/CborDecoder.antt =====
-- src/cbor/CBORDecoder.{h,cpp}: a payload of property values is read map by map, and each run of
-- maps about one property is handed to `updateProperty`. The calls of tinycbor are a `Parser`: `I`
-- is the type of a `CborValue`, and a call gives none where it does not return `CborNoError`. `F` is
-- the type of a double.
pub mod Handlers
pub mod Machine
pub mod Senml
pub mod Entries
pub mod Naming
pub mod Taking
pub mod Refinement
pub mod Leftovers
use Prim.Native.String.{String, [] as []ₛ, ◌∷◌ as ◌∷ₛ◌}
use Prim.Native.Char.{code}
use text.Mathlib.Text.{◌==◌ as str_eq}
use mathlib.Core.Option
use arduino_io_tcloud.Common.{
  ℕ, ◌+◌, ◌-◌, ◌/◌, ◌%◌, Bool, true, false, not, ◌&&◌, Option, none, some, List, [], ◌∷◌, ◌++◌,
  ◌==◌, leb, if◌then◌else◌, ℤ, int_eq, u32_mod,
}
use arduino_io_tcloud.Property.{Methods}
use arduino_io_tcloud.Property.Attributes.{MapEntry, CborMapData}
use arduino_io_tcloud.Container.{
  PropertyContainer, update_property, get_property_name_by_identifier,
}

pub data CborType : Type 0 where
  integer_type text_string_type array_type map_type boolean_type : CborType
  half_float_type float_type double_type other_type : CborType

pub record Parser (I F : Type 0) : Type 0 where
  pub parser_init : List ℕ → Option I
  pub get_type : I → CborType
  pub at_end : I → Bool
  pub enter_container : I → Option I
  pub leave_container : I → I → Option I
  pub advance : I → Option I
  pub get_int : I → Option ℤ
  pub get_int64 : I → Option ℤ
  pub get_double : I → Option F
  pub get_float : I → Option F
  pub get_half_float : I → Option ℕ
  pub get_boolean : I → Option Bool
  pub dup_text_string : I → Option (String × I)

-- What is done with a double: `exceeds` is the comparison with an `unsigned long`.
pub record Floats (F : Type 0) : Type 0 where
  pub from_int : ℤ → F
  pub ldexp : ℕ → ℤ → F
  pub infinity : F
  pub nan : F
  pub negate : F → F
  pub to_unsigned_long : F → ℕ
  pub exceeds : F → ℕ → Bool

pub data MapParserState : Type 0 where
  enter_map map_key undefined_key base_version base_name base_time name : MapParserState
  value string_value boolean_value time leave_map complete error : MapParserState

-- The local variables of `decode`, and the container.
pub record Decoding (V D I F : Type 0) : Type 0 where
  pub property_container : PropertyContainer V D
  pub map_iter : I
  pub value_iter : I
  pub map_data : CborMapData F
  pub current_property_name : String
  pub current_property_base_time : ℕ
  pub current_property_time : ℕ
  pub map_data_list : List (CborMapData F)

abbrev pub set : {A : Type 0} → A → MapEntry A
set x = record { entry = x; is_set = true }

-- A new `CborMapData`: the constructors clear the flags and the strings, and leave the memory below
-- the rest as it was.
unfoldable pub new_map_data : {F : Type 0} → CborMapData F → CborMapData F
new_map_data md = record {
  base_version = record { entry = md.base_version.entry; is_set = false };
  base_name = record { entry = ""; is_set = false };
  base_time = record { entry = md.base_time.entry; is_set = false };
  name = record { entry = ""; is_set = false };
  name_identifier = record { entry = md.name_identifier.entry; is_set = false };
  light_payload = record { entry = md.light_payload.entry; is_set = false };
  attribute_name = record { entry = ""; is_set = false };
  attribute_identifier = record { entry = md.attribute_identifier.entry; is_set = false };
  val = record { entry = md.val.entry; is_set = false };
  str_val = record { entry = ""; is_set = false };
  bool_val = record { entry = md.bool_val.entry; is_set = false };
  time = record { entry = md.time.entry; is_set = false };
}

-- The text before and after the first colon, if there is one: `indexOf` and `substring`.
abbrev pub with_char : {A : Type 0} → (String → String) → Option (String × A) → Option (String × A)
with_char f none = none
with_char f (some (s, t)) = some (f s, t)

unfoldable pub split_colon : String → Option (String × String)
split_colon []ₛ = none
split_colon (c ∷ₛ s) =
    let rest = split_colon s in if code c == 58 then some ("", s) else with_char (λ t. c ∷ₛ t) rest

unfoldable pub property_part : String → String
property_part s = elim (split_colon s) [ some (before, after) ↦ before | none ↦ s ]

unfoldable pub attribute_part : String → String
attribute_part s = elim (split_colon s) [ some (before, after) ↦ after | none ↦ "" ]

-- `n & 255` and `n >> 8` of an `int`.
unfoldable pub low_byte : ℤ → ℤ
low_byte (ℤ.pos n) = ℤ.pos (n % 256)
low_byte (ℤ.negsuc n) = ℤ.pos (255 - n % 256)

unfoldable pub high_bytes : ℤ → ℤ
high_bytes (ℤ.pos n) = ℤ.pos (n / 256)
high_bytes (ℤ.negsuc n) = ℤ.negsuc (n / 256)

-- No property has a negative identifier.
unfoldable pub name_of_identifier : {V D : Type 0} → ℤ → PropertyContainer V D → String
name_of_identifier (ℤ.pos n) c = get_property_name_by_identifier n c
name_of_identifier (ℤ.negsuc n) c = ""

-- `exp - 25` of an `int`.
unfoldable pub int_minus : ℕ → ℕ → ℤ
int_minus a b = if leb b a then ℤ.pos (a - b) else ℤ.negsuc (b - a - 1)

unfoldable pub convert_cbor_half_float_to_double : {F : Type 0} → Floats F → ℕ → F
convert_cbor_half_float_to_double d half_val =
    let exp = half_val / 1024 % 32 in
    let mant = half_val % 1024 in
    let val =
      if exp == 0
      then d.ldexp mant (ℤ.negsuc 23)
      else if not (exp == 31)
      then d.ldexp (mant + 1024) (int_minus exp 25)
      else if mant == 0
      then d.infinity
      else d.nan in
    if half_val / 32768 % 2 == 1 then d.negate val else val

module _ {I F : Type 0} (p : Parser I F) (d : Floats F) where
  -- `ifNumericConvertToDouble`.
  abbrev pub to_double : CborType → I → Option F
  to_double integer_type i = Option.map d.from_int (p.get_int64 i)
  to_double double_type i = p.get_double i
  to_double float_type i = p.get_float i
  to_double half_float_type i =
      Option.map (convert_cbor_half_float_to_double d) (p.get_half_float i)
  to_double _ i = none

  unfoldable pub if_numeric_convert_to_double : I → Option F
  if_numeric_convert_to_double i = to_double (p.get_type i) i

-- The state for each key, the members of `CborIntegerMapKey`.
unfoldable pub key_state : ℤ → MapParserState
key_state k =
    if int_eq k (ℤ.pos 0)
    then name
    else if int_eq k (ℤ.negsuc 0)
    then base_version
    else if int_eq k (ℤ.negsuc 1)
    then base_name
    else if int_eq k (ℤ.negsuc 2)
    then base_time
    else if int_eq k (ℤ.pos 2)
    then value
    else if int_eq k (ℤ.pos 3)
    then string_value
    else if int_eq k (ℤ.pos 4)
    then boolean_value
    else if int_eq k (ℤ.pos 6)
    then time
    else undefined_key
