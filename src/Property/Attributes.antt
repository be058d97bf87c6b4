-- ===== src/Property/Attributes.antt =====
-- The attributes of a property in src/property/Property.cpp: `appendAttribute` writes one as a CBOR
-- map, and `setAttribute` finds its value among the maps of a received property. The calls of
-- tinycbor are a `MapEncoder`; `F` is the type of a float and of the double in a received map.
pub mod Received
use Prim.Native.String.{String}
use Prim.Native.String.{◌++◌ as str_append}
use text.Mathlib.Text.{◌==◌ as str_eq}
use arduino_io_tcloud.Common.{
  ℕ, ◌+◌, ◌*◌, Bool, true, false, not, ◌&&◌, Option, none, some, List, [], ◌∷◌, ◌==◌, if◌then◌else◌,
  ℤ, int_eq,
}
use arduino_io_tcloud.Property.{Property, CborError, no_error}

pub record MapEncoder (E F : Type 0) : Type 0 where
  pub encoder_create_map : E → ℕ → CborError × E × E
  pub encode_int : E → ℤ → CborError × E
  pub encode_uint : E → ℕ → CborError × E
  pub encode_boolean : E → Bool → CborError × E
  pub encode_float : E → F → CborError × E
  pub encode_text_stringz : E → String → CborError × E
  pub encoder_close_container : E → E → CborError × E

-- The argument of one of the five `appendAttribute`.
pub data Value (F : Type 0) : Type 0 where
  bool_value : Bool → Value F
  int_value : ℤ → Value F
  unsigned_value : ℕ → Value F
  float_value : F → Value F
  string_value : String → Value F

-- The members of `CborIntegerMapKey` that are written.
abbrev pub name_key : ℤ
name_key = ℤ.pos 0

abbrev pub value_key : ℤ
value_key = ℤ.pos 2

abbrev pub string_value_key : ℤ
string_value_key = ℤ.pos 3

abbrev pub boolean_value_key : ℤ
boolean_value_key = ℤ.pos 4

abbrev pub time_key : ℤ
time_key = ℤ.pos 6

-- `CHECK_CBOR`: an error is returned at once.
infixl 5 ◌>>>◌
abbrev pub ◌>>>◌ : {E : Type 0} → CborError × E → (E → CborError × E) → CborError × E
(no_error, e) >>> next = next e
(err, e) >>> next = (err, e)

-- An unsigned value as the `int` it is converted to where it is written.
abbrev pub as_int64 : ℕ → ℤ
as_int64 n = ℤ.pos n

-- `_attributeIdentifier` counts the attributes that have a name.
abbrev pub next_attribute : String → ℕ → ℕ
next_attribute attribute_name n = if str_eq attribute_name "" then n else n + 1

module _ {V D : Type 0} where
  abbrev pub complete_identifier : Property V D → ℕ → ℕ
  complete_identifier p n = n * 256 + p.identifier

  abbrev pub complete_name : Property V D → String → String
  complete_name p attribute_name =
      if str_eq attribute_name "" then p.name else str_append p.name (str_append ":" attribute_name)

module _ {E F : Type 0} (t : MapEncoder E F) where
  unfoldable pub append_value : Value F → E → CborError × E
  append_value (bool_value b) e = t.encode_int e boolean_value_key >>> (λ e. t.encode_boolean e b)
  append_value (int_value n) e = t.encode_int e value_key >>> (λ e. t.encode_int e n)
  append_value (unsigned_value n) e =
      t.encode_int e value_key >>> (λ e. t.encode_int e (as_int64 n))
  append_value (float_value x) e = t.encode_int e value_key >>> (λ e. t.encode_float e x)
  append_value (string_value s) e =
      t.encode_int e string_value_key >>> (λ e. t.encode_text_stringz e s)

  abbrev pub close_map : E → CborError × E → CborError × E
  close_map parent (no_error, map) = t.encoder_close_container parent map
  close_map parent (err, map) = (err, parent)

  abbrev pub in_map : (E → CborError × E) → CborError × E × E → CborError × E
  in_map entries (no_error, parent, map) = close_map parent (entries map)
  in_map entries (err, parent, map) = (err, parent)

module _ {V D E F : Type 0} (t : MapEncoder E F) where
  -- The entries of the map.
  abbrev pub append_entries : Property V D → String → ℕ → Value F → E → CborError × E
  append_entries p attribute_name n v e =
      t.encode_int e name_key
      >>> (λ e.
          if p.light_payload
          then t.encode_int e (ℤ.pos (complete_identifier p n))
          else t.encode_text_stringz e (complete_name p attribute_name))
      >>> append_value t v
      >>> (λ e.
          if p.encode_timestamp
          then t.encode_int e time_key >>> (λ e. t.encode_uint e p.timestamp)
          else (no_error, e))

  -- `appendAttribute`, with `_attributeIdentifier` before and after it.
  unfoldable pub append_attribute : Property V D → Value F → String → ℕ → E → CborError × E × ℕ
  append_attribute p v attribute_name n e =
      let n' = next_attribute attribute_name n in
      let (err, e') =
        in_map t (append_entries p attribute_name n' v)
          (t.encoder_create_map e (if p.encode_timestamp then 3 else 2)) in
      (err, e', n')

pub record MapEntry (A : Type 0) : Type 0 where
  pub entry : A
  pub is_set : Bool

-- `property_identifier`, which nothing uses, is left out.
pub record CborMapData (F : Type 0) : Type 0 where
  pub base_version : MapEntry ℤ
  pub base_name : MapEntry String
  pub base_time : MapEntry F
  pub name : MapEntry String
  pub name_identifier : MapEntry ℤ
  pub light_payload : MapEntry Bool
  pub attribute_name : MapEntry String
  pub attribute_identifier : MapEntry ℤ
  pub val : MapEntry F
  pub str_val : MapEntry String
  pub bool_val : MapEntry Bool
  pub time : MapEntry F

-- What is done with a double.
pub record Doubles (F G : Type 0) : Type 0 where
  pub is_zero : F → Bool
  pub is_one : F → Bool
  pub to_int : F → ℤ
  pub to_unsigned : F → ℕ
  pub to_float : F → G

module _ {F : Type 0} where
  -- Whether a map is about an attribute.
  unfoldable pub is_about : String → ℕ → CborMapData F → Bool
  is_about name n md =
      if md.light_payload.is_set && md.light_payload.entry
      then int_eq md.attribute_identifier.entry (ℤ.pos n)
      else str_eq md.attribute_name.entry name

  -- `setAttribute` with a `setValue`, for each map in turn; `n` is `_attributeIdentifier` after it.
  unfoldable pub set_each :
      {A : Type 0} → (CborMapData F → A → A) → String → ℕ → List (CborMapData F) → A → A
  set_each set name n [] v = v
  set_each set name n (md ∷ maps) v =
      set_each set name n maps (if is_about name n md then set md v else v)

  unfoldable pub set_attribute :
      {A : Type 0} → (CborMapData F → A → A) → String → ℕ → List (CborMapData F) → A → A × ℕ
  set_attribute set name n maps v =
      let n' = if str_eq name "" then n else n + 1 in (set_each set name n' maps v, n')

module _ {F G : Type 0} (d : Doubles F G) where
  -- The five functions that take a value out of a map.
  unfoldable pub set_bool : CborMapData F → Bool → Bool
  set_bool md v =
      if md.bool_val.is_set
      then md.bool_val.entry
      else if md.val.is_set
      then (if d.is_zero md.val.entry then false else if d.is_one md.val.entry then true else v)
      else v

  unfoldable pub set_int : CborMapData F → ℤ → ℤ
  set_int md v = d.to_int md.val.entry

  unfoldable pub set_unsigned : CborMapData F → ℕ → ℕ
  set_unsigned md v = d.to_unsigned md.val.entry

  unfoldable pub set_float : CborMapData F → G → G
  set_float md v = d.to_float md.val.entry

unfoldable pub set_string : {F : Type 0} → CborMapData F → String → String
set_string md v = md.str_val.entry
