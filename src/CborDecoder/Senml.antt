-- ===== src/CborDecoder/Senml.antt =====
-- What a payload of property values means, apart from the machine of src/cbor/CBORDecoder.cpp: the
-- message is a list of maps, the maps fall into runs about one property, and each run is one update.
-- A `Parser` shows a message if its calls give the message's parts in their order.
use Prim.Native.String.{String}
use text.Mathlib.Text.{◌==◌ as str_eq}
use arduino_io_tcloud.Common.{
  ℕ, suc, ◌+◌, ◌%◌, ◌≡◌, Bool, true, false, some, List, [], ◌∷◌, ◌++◌, if◌then◌else◌, ℤ, u32_mod,
}
use arduino_io_tcloud.Property.{Methods}
use arduino_io_tcloud.Property.Attributes.{CborMapData}
use arduino_io_tcloud.Container.{PropertyContainer, update_property}
use arduino_io_tcloud.CborDecoder.Machine.{next_base_time, next_time}
use arduino_io_tcloud.CborDecoder.{
  name_of_identifier, Parser, Floats, undefined_key, integer_type, text_string_type, array_type,
  map_type, float_type, double_type, half_float_type, set, property_part, attribute_part, low_byte,
  high_bytes, convert_cbor_half_float_to_double, key_state,
}

pub data Number (F : Type 0) : Type 0 where
  integer : ℤ → Number F
  double single : F → Number F
  half : ℕ → Number F

-- The entries of a map; `unknown` has a key that is none of the others'.
pub data Entry (F : Type 0) : Type 0 where
  has_base_version : ℤ → Entry F
  has_base_name : String → Entry F
  has_base_time : Number F → Entry F
  has_name : String → Entry F
  has_identifier : ℤ → Entry F
  has_value : Number F → Entry F
  has_string_value : String → Entry F
  has_boolean_value : Bool → Entry F
  has_time : Number F → Entry F
  unknown : ℤ → Entry F

abbrev pub Message : Type 0 → Type 0
Message F = List (List (Entry F))

module _ {F : Type 0} where
  abbrev pub key : Entry F → ℤ
  key (has_base_version n) = ℤ.negsuc 0
  key (has_base_name s) = ℤ.negsuc 1
  key (has_base_time x) = ℤ.negsuc 2
  key (has_name s) = ℤ.pos 0
  key (has_identifier n) = ℤ.pos 0
  key (has_value x) = ℤ.pos 2
  key (has_string_value s) = ℤ.pos 3
  key (has_boolean_value b) = ℤ.pos 4
  key (has_time x) = ℤ.pos 6
  key (unknown k) = k

  module _ {I : Type 0} (p : Parser I F) where
    abbrev pub ShowsNumber : I → Number F → Type 0
    ShowsNumber i (integer n) = (p.get_type i ≡ integer_type) × (p.get_int64 i ≡ some n)
    ShowsNumber i (double x) = (p.get_type i ≡ double_type) × (p.get_double i ≡ some x)
    ShowsNumber i (single x) = (p.get_type i ≡ float_type) × (p.get_float i ≡ some x)
    ShowsNumber i (half n) = (p.get_type i ≡ half_float_type) × (p.get_half_float i ≡ some n)

    -- The value of an entry is at `i`, and what follows it is at `j`.
    abbrev pub ShowsValue : I → I → Entry F → Type 0
    ShowsValue i j (has_base_version n) =
        (p.get_type i ≡ integer_type) × (p.get_int i ≡ some n) × (p.advance i ≡ some j)
    ShowsValue i j (has_base_name s) =
        (p.get_type i ≡ text_string_type) × (p.dup_text_string i ≡ some (s, j))
    ShowsValue i j (has_base_time x) = ShowsNumber i x × (p.advance i ≡ some j)
    ShowsValue i j (has_name s) =
        (p.get_type i ≡ text_string_type) × (p.dup_text_string i ≡ some (s, j))
    ShowsValue i j (has_identifier n) =
        (p.get_type i ≡ integer_type) × (p.get_int i ≡ some n) × (p.advance i ≡ some j)
    ShowsValue i j (has_value x) = ShowsNumber i x × (p.advance i ≡ some j)
    ShowsValue i j (has_string_value s) =
        (p.get_type i ≡ text_string_type) × (p.dup_text_string i ≡ some (s, j))
    ShowsValue i j (has_boolean_value b) = (p.get_boolean i ≡ some b) × (p.advance i ≡ some j)
    ShowsValue i j (has_time x) = ShowsNumber i x × (p.advance i ≡ some j)
    ShowsValue i j (unknown k) = (key_state k ≡ undefined_key) × (p.advance i ≡ some j)

    -- The key of an entry is at `i`, its value at `j`, and what follows it is at `k`.
    pub record ShowsEntry (i : I) (e : Entry F) (j k : I) : Type 0 where
      pub not_at_end : p.at_end i ≡ false
      pub is_integer : p.get_type i ≡ integer_type
      pub is_key : p.get_int i ≡ some (key e)
      pub to_value : p.advance i ≡ some j
      pub is_value : ShowsValue j k e

    -- The entries of the map at `i` are at `j`, and after them comes `i'`.
    abbrev pub ShowsEntries : I → I → I → List (Entry F) → Type 0
    ShowsEntries i i' j [] = (p.at_end j ≡ true) × (p.leave_container i j ≡ some i')
    ShowsEntries i i' j (e ∷ es) = (v : I) × (k : I) × ShowsEntry j e v k × ShowsEntries i i' k es

    -- The map `es` is at `i`, and after it comes `i'`.
    pub record ShowsMap (i : I) (es : List (Entry F)) (i' : I) : Type 0 where
      pub is_map : p.get_type i ≡ map_type
      pub entries : I
      pub enters : p.enter_container i ≡ some entries
      pub shows : ShowsEntries i i' entries es

    -- The maps `es` and `ms` are at `i`.
    abbrev pub ShowsMaps : I → List (Entry F) → Message F → Type 0
    ShowsMaps i es [] = (i' : I) × ShowsMap i es i' × (p.at_end i' ≡ true)
    ShowsMaps i es (es' ∷ ms) =
        (i' : I) × ShowsMap i es i' × (p.at_end i' ≡ false) × ShowsMaps i' es' ms

    -- The payload is an array of the maps `es` and `ms`.
    pub record Shows (payload : List ℕ) (es : List (Entry F)) (ms : Message F) : Type 0 where
      pub array : I
      pub parses : p.parser_init payload ≡ some array
      pub is_array : p.get_type array ≡ array_type
      pub first : I
      pub enters : p.enter_container array ≡ some first
      pub shows : ShowsMaps first es ms

module _ {F : Type 0} (d : Floats F) where
  abbrev pub number : Number F → F
  number (integer n) = d.from_int n
  number (double x) = x
  number (single x) = x
  number (half n) = convert_cbor_half_float_to_double d n

  -- What an entry writes into the data of the map; `names` gives the names of the identifiers.
  abbrev pub put : (ℤ → String) → Entry F → CborMapData F → CborMapData F
  put names (has_base_version n) md = record md { base_version = set n }
  put names (has_base_name s) md = record md { base_name = set s }
  put names (has_base_time x) md = record md { base_time = set (number x) }
  put names (has_name s) md = record md { name = set s; attribute_name = set (attribute_part s) }
  put names (has_identifier n) md = record md {
    light_payload = set true;
    name_identifier = set (low_byte n);
    attribute_identifier = set (high_bytes n);
    name = set (names n);
  }
  put names (has_value x) md = record md { val = set (number x) }
  put names (has_string_value s) md = record md { str_val = set s }
  put names (has_boolean_value b) md = record md { bool_val = set b }
  put names (has_time x) md = record md { time = set (number x) }
  put names (unknown k) md = md

  unfoldable pub put_all : (ℤ → String) → List (Entry F) → CborMapData F → CborMapData F
  put_all names [] md = md
  put_all names (e ∷ es) md = put_all names es (put names e md)

  -- The data after each map, which keep what no later entry writes again.
  unfoldable pub contents : (ℤ → String) → CborMapData F → Message F → List (CborMapData F)
  contents names md [] = []
  contents names md (es ∷ ms) = let md' = put_all names es md in md' ∷ contents names md' ms

-- The maps about one property.
pub record Run (F : Type 0) : Type 0 where
  pub property_name : String
  pub maps : List (CborMapData F)

module _ {F : Type 0} where
  abbrev pub run_of : String → List (CborMapData F) → Run F
  run_of n maps = record { property_name = n; maps = maps }

  -- The maps that have a name, their own or one of an earlier map.
  unfoldable pub named : List (CborMapData F) → List (CborMapData F)
  named [] = []
  named (md ∷ mds) = if md.name.is_set then md ∷ named mds else named mds

  -- The runs of the maps that follow the ones about `n`: a map belongs to the run before it if it is
  -- about the same property, or if that run's last map was about a property without a name.
  unfoldable pub runs : String → List (CborMapData F) → List (CborMapData F) → List (Run F)
  runs n maps [] = run_of n maps ∷ []
  runs n maps (md ∷ mds) =
      let k = property_part md.name.entry in
      let same = runs k (maps ++ md ∷ []) mds in
      let other = run_of n maps ∷ runs k (md ∷ []) mds in
      if str_eq n "" then same else if str_eq k n then same else other

module _ {F : Type 0} (d : Floats F) where
  -- The base time is the last one, and the time one that no later one exceeds.
  abbrev pub base_time_from : ℕ → List (CborMapData F) → ℕ
  base_time_from t [] = t
  base_time_from t (md ∷ mds) = base_time_from (next_base_time d md t) mds

  abbrev pub time_from : ℕ → List (CborMapData F) → ℕ
  time_from t [] = t
  time_from t (md ∷ mds) = time_from (next_time d md t) mds

  module _ {V D E : Type 0} (m : Methods V D E (CborMapData F)) (is_sync_message : Bool) where
    unfoldable pub update_all : List (Run F) → PropertyContainer V D → PropertyContainer V D
    update_all [] c = c
    update_all (r ∷ rs) c = update_all rs (
        update_property m r.property_name ((base_time_from 0 r.maps + time_from 0 r.maps) % u32_mod)
          is_sync_message r.maps c)

    -- What the message does to the container.
    unfoldable pub meaning :
        CborMapData F → Message F → PropertyContainer V D → PropertyContainer V D
    meaning md ms c =
        update_all (runs "" [] (named (contents d (λ n. name_of_identifier n c) md ms))) c

-- `n` rounds of the loop and those for a message: two for each entry and three for each map.
module _ {F : Type 0} where
  abbrev pub entry_rounds : List (Entry F) → ℕ → ℕ
  entry_rounds [] n = suc n
  entry_rounds (e ∷ es) n = suc (suc (entry_rounds es n))

  abbrev pub rounds : Message F → ℕ → ℕ
  rounds [] n = n
  rounds (es ∷ ms) n = suc (entry_rounds es (suc (rounds ms n)))
