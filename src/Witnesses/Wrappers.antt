-- ===== src/Witnesses/Wrappers.antt =====
-- The virtual methods of an integer property, as src/property/types/CloudWrapperInt.h has them, for
-- an encoder that counts the properties it has taken and a map that is just a value.
use Prim.Native.String.{String}
use arduino_io_tcloud.Common.{
  ℕ, pos, suc, ◌≡◌, refl, true, false, none, some, List, [], ◌∷◌, if◌then◌else◌, ltb, arith,
}
use arduino_io_tcloud.Thing.{Wrapper, differs, accept}
use arduino_io_tcloud.Property.{
  Property, Methods, no_error, out_of_memory, create, read_write, append, append_completed,
  should_be_updated,
}
use arduino_io_tcloud.Property.Policy.{should_be_updated-append}
use arduino_io_tcloud.Property.Attributes.{complete_identifier, CborMapData, set_attribute}
use arduino_io_tcloud.Property.Attributes.Received.{IsLastOf, set_attribute-last}
use arduino_io_tcloud.Container.{
  PropertyContainer, get_property, add_property_to_container, get_property_name_by_identifier,
  get_property_by_identifier, update_property, receive,
}
use arduino_io_tcloud.Container.Names.{
  HasUniqueNames, HasUniqueIdentifiers, get_property-add,
  get_property_name_by_identifier-complete_identifier,
}
use arduino_io_tcloud.Container.Updates.{get_property-update}

abbrev last_or : ℕ → List ℕ → ℕ
last_or n [] = n
last_or n (x ∷ xs) = last_or x xs

-- The encoder has room for three properties.
abbrev pub methods : Methods Wrapper ℕ ℕ ℕ
methods = record {
  is_different_from_cloud = λ d w. differs w;
  from_cloud_to_local = accept;
  from_local_to_cloud = λ w. record w { cloud_value = w.primitive_value };
  append_attributes_to_cloud = λ p n. (if ltb n 3 then no_error else out_of_memory, suc n);
  set_attributes_from_cloud = λ maps w. record w { cloud_value = last_or w.cloud_value maps };
  is_primitive = λ w. true;
  is_changed_locally = differs;
}

abbrev counter : Property Wrapper ℕ
counter = record (create 0 (record { primitive_value = 7; cloud_value = 3 })) {
  name = "counter";
  permission = read_write;
  identifier = 1;
  last_cloud_change_timestamp = 50;
}

abbrev lamp : Property Wrapper ℕ
lamp = record (create 0 (record { primitive_value = 1; cloud_value = 1 })) {
  name = "lamp";
  identifier = 2;
}

abbrev pub container : PropertyContainer Wrapper ℕ
container = counter ∷ lamp ∷ []

-- The value is 8 by the time of the question, and 7 was sent.
should_be_updated-append_example :
    let sent = append_completed (append methods 1000 false counter 0).1 in
    (sent.value ≡ record { primitive_value = 7; cloud_value = 7 })
    × (should_be_updated methods 9000
          (record sent { value = record { primitive_value = 8; cloud_value = 7 } })
        ≡ true)
unfolding create append
should_be_updated-append_example =
    should_be_updated-append methods 1000 9000 false counter 0
      (record { primitive_value = 8; cloud_value = 7 }) refl

get_property-add_example :
    get_property "lamp" (add_property_to_container counter "lamp" read_write none none container)
    ≡ some lamp
unfolding get_property create
get_property-add_example = get_property-add counter "lamp" read_write none none container

container-HasUniqueNames : HasUniqueNames container
unfolding get_property create
container-HasUniqueNames = (refl, (refl, tt))

-- The lamp was declared with the identifier 40.
abbrev numbered : PropertyContainer Wrapper ℕ
numbered = counter ∷ record lamp { identifier = 40 } ∷ []

numbered-HasUniqueIdentifiers : HasUniqueIdentifiers numbered
unfolding get_property_by_identifier create
numbered-HasUniqueIdentifiers = (refl, (refl, tt))

-- Attribute 3 of the second property.
get_property_name_by_identifier-complete_identifier_example :
    get_property_name_by_identifier
      (complete_identifier (record lamp { identifier = 40 }) 3)
      numbered
    ≡ "lamp"
unfolding create
get_property_name_by_identifier-complete_identifier_example =
    get_property_name_by_identifier-complete_identifier 3 1 numbered numbered-HasUniqueIdentifiers
      refl (omega arith)

get_property-update_example :
    get_property "counter" (update_property methods "counter" 60 false (8 ∷ []) container)
    ≡ some (receive methods 60 false (8 ∷ []) counter)
unfolding get_property create
get_property-update_example =
    get_property-update methods "counter" "counter" 60 false (8 ∷ []) container refl

abbrev about : {F : Type 0} → String → F → CborMapData F
about name v = record {
  base_version = record { entry = pos 0; is_set = false };
  base_name = record { entry = ""; is_set = false };
  base_time = record { entry = v; is_set = false };
  name = record { entry = name; is_set = true };
  name_identifier = record { entry = pos 0; is_set = false };
  light_payload = record { entry = false; is_set = false };
  attribute_name = record { entry = name; is_set = true };
  attribute_identifier = record { entry = pos 0; is_set = false };
  val = record { entry = v; is_set = true };
  str_val = record { entry = ""; is_set = false };
  bool_val = record { entry = false; is_set = false };
  time = record { entry = v; is_set = false };
}

abbrev received : List (CborMapData ℕ)
received = about "hue" 1 ∷ about "bri" 2 ∷ about "hue" 3 ∷ about "bri" 4 ∷ []

set_attribute-last_example :
    IsLastOf
      (λ md. md.val.entry)
      "hue"
      1
      received
      9
      (set_attribute (λ md w. md.val.entry) "hue" 0 received 9).0
set_attribute-last_example = set_attribute-last (λ md. md.val.entry) "hue" 0 received 9
