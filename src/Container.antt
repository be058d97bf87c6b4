-- ===== src/Container.antt =====
-- src/property/PropertyContainer.{h,cpp}: the list of a thing's properties. A `Property *` is the
-- place in the list at which it stands; what is changed through it is changed there.
pub mod Names
pub mod Updates
use Prim.Native.String.{String}
use text.Mathlib.Text.{◌==◌ as str_eq}
use arduino_io_tcloud.Common.{
  ℕ, ◌+◌, ◌%◌, Bool, true, false, ◌&&◌, Option, none, some, List, [], ◌∷◌, ◌++◌, map, length, ltb,
  ◌==◌, if◌then◌else◌,
}
use arduino_io_tcloud.Property.{
  Property, Methods, Permission, init, set_identifier, request_update, update_local_timestamp,
  is_readable_by_cloud, is_writeable_by_cloud, is_writable_on_change,
  set_last_cloud_change_timestamp, set_attributes_from_cloud, exec_callback_on_sync,
  exec_callback_on_change, from_cloud_to_local, provide_echo,
}

abbrev pub PropertyContainer : Type 0 → Type 0 → Type 0
PropertyContainer V D = List (Property V D)

module _ {V D : Type 0} where
  -- `getProperty` by name, and by identifier.
  unfoldable pub get_property : String → PropertyContainer V D → Option (Property V D)
  get_property name [] = none
  get_property name (p ∷ c) = if str_eq p.name name then some p else get_property name c

  unfoldable pub get_property_by_identifier : ℕ → PropertyContainer V D → Option (Property V D)
  get_property_by_identifier n [] = none
  get_property_by_identifier n (p ∷ c) =
      if p.identifier == n then some p else get_property_by_identifier n c

  -- `addProperty`; the identifier `none` is the code's -1.
  abbrev pub chosen_identifier : Option ℕ → PropertyContainer V D → ℕ
  chosen_identifier (some n) c = n
  chosen_identifier none c = length c + 1

  unfoldable pub add_property :
      Property V D → Option ℕ → PropertyContainer V D → PropertyContainer V D
  add_property p identifier c = c ++ set_identifier (chosen_identifier identifier c) p ∷ []

  -- `addPropertyToContainer`: a name that is there already is left alone.
  unfoldable pub add_property_to_container :
      Property V D
      → String
      → Permission
      → Option ℕ
      → Option (ℕ → ℕ)
      → PropertyContainer V D
      → PropertyContainer V D
  add_property_to_container p name permission identifier func c = elim (get_property name c) [
    | some q ↦ c
    | none ↦ add_property (init name permission func p) identifier c
  ]

  unfoldable pub request_update_for_all_properties : PropertyContainer V D → PropertyContainer V D
  request_update_for_all_properties c = map request_update c

  -- The change of the first property with that name, through the pointer to it.
  unfoldable pub modify :
      String → (Property V D → Property V D) → PropertyContainer V D → PropertyContainer V D
  modify name f [] = []
  modify name f (p ∷ c) = if str_eq p.name name then f p ∷ c else p ∷ modify name f c

  abbrev pub name_or_empty : Option (Property V D) → String
  name_or_empty none = ""
  name_or_empty (some p) = p.name

  -- `getPropertyNameByIdentifier`; `& 255` is the remainder by 256.
  unfoldable pub get_property_name_by_identifier : ℕ → PropertyContainer V D → String
  get_property_name_by_identifier n c =
      name_or_empty (get_property_by_identifier (if ltb 255 n then n % 256 else n) c)

module _ {V D E M : Type 0} (m : Methods V D E M) where
  abbrev pub stamp_if_changed : ℕ → Property V D → Property V D
  stamp_if_changed now p =
      if m.is_primitive p.value && (m.is_changed_locally p.value && is_readable_by_cloud p)
      then update_local_timestamp now p
      else p

  unfoldable pub update_timestamp_on_locally_changed_properties :
      ℕ → PropertyContainer V D → PropertyContainer V D
  update_timestamp_on_locally_changed_properties now c = map (stamp_if_changed now) c

  -- The body of `updateProperty`, for a property that is found and may be written.
  unfoldable pub receive : ℕ → Bool → List M → Property V D → Property V D
  receive time is_sync_message maps p =
      let q = set_attributes_from_cloud m maps (set_last_cloud_change_timestamp time p) in
      if is_sync_message
      then exec_callback_on_sync m q
      else provide_echo (
          exec_callback_on_change m
            (if is_writable_on_change q then from_cloud_to_local m q else q))

  unfoldable pub update_property :
      String → ℕ → Bool → List M → PropertyContainer V D → PropertyContainer V D
  update_property name time is_sync_message maps c = elim (get_property name c) [
    | some p ↦
        if is_writeable_by_cloud p then modify name (receive time is_sync_message maps) c else c
    | none ↦ c
  ]
