-- ===== src/Property.antt =====
-- src/property/Property.{h,cpp}: the bookkeeping of a cloud property. The derived class with its
-- members and the user's variable is a value of a type `V`, and its virtual methods are a `Methods`;
-- `D` is the type of `_min_delta_property` (a float), `E` that of the CBOR encoder, and `M` that of
-- a decoded map. `millis()` is an argument `now`. `_attributeIdentifier` and `_map_data_list` live
-- only during the calls of the virtual methods, which are parameters here.
pub mod Settings
pub mod Policy
pub mod Sync
pub mod Attributes
use Prim.Native.String.{String}
use arduino_io_tcloud.Common.{
  ℕ, ◌+◌, ◌-◌, ◌*◌, ◌%◌, Bool, true, false, not, ◌&&◌, ◌||◌, Option, none, some, List, ltb, leb,
  if◌then◌else◌, u32_mod,
}

pub data Permission : Type 0 where
  read write read_write : Permission

pub data UpdatePolicy : Type 0 where
  on_change time_interval on_demand : UpdatePolicy

pub data WritePolicy : Type 0 where
  automatic manual : WritePolicy

-- `OnSyncCallbackFunc`: null, or one of the three that the library defines.
pub data SyncCallback : Type 0 where
  no_callback on_auto_sync on_force_cloud_sync on_force_device_sync : SyncCallback

pub data CborError : Type 0 where
  no_error out_of_memory split_items : CborError
  other_error : ℕ → CborError

pub record Property (V D : Type 0) : Type 0 where
  pub value : V
  pub name : String
  pub min_delta_property : D
  pub min_time_between_updates_millis : ℕ
  pub permission : Permission
  pub write_policy : WritePolicy
  pub get_time_func : Option (ℕ → ℕ)
  pub update_callback_func : Option (V → V)
  pub on_sync_callback_func : SyncCallback
  pub update_policy : UpdatePolicy
  pub has_been_updated_once : Bool
  pub has_been_modified_in_callback : Bool
  pub has_been_appended_but_not_sended : Bool
  pub last_updated_millis : ℕ
  pub update_interval_millis : ℕ
  pub last_local_change_timestamp : ℕ
  pub last_cloud_change_timestamp : ℕ
  pub identifier : ℕ
  pub light_payload : Bool
  pub update_requested : Bool
  pub encode_timestamp : Bool
  pub echo_requested : Bool
  pub timestamp : ℕ

-- The virtual methods of `Property` and `CloudWrapperBase`.
pub record Methods (V D E M : Type 0) : Type 0 where
  pub is_different_from_cloud : D → V → Bool
  pub from_cloud_to_local : V → V
  pub from_local_to_cloud : V → V
  pub append_attributes_to_cloud : Property V D → E → CborError × E
  pub set_attributes_from_cloud : List M → V → V
  pub is_primitive : V → Bool
  pub is_changed_locally : V → Bool

-- `Property()`, for a derived object `v`; `d` is the delta 0.0f.
unfoldable pub create : {V D : Type 0} → D → V → Property V D
create d v = record {
  value = v;
  name = "";
  min_delta_property = d;
  min_time_between_updates_millis = 500;
  permission = read;
  write_policy = automatic;
  get_time_func = none;
  update_callback_func = none;
  on_sync_callback_func = no_callback;
  update_policy = on_change;
  has_been_updated_once = false;
  has_been_modified_in_callback = false;
  has_been_appended_but_not_sended = false;
  last_updated_millis = 0;
  update_interval_millis = 0;
  last_local_change_timestamp = 0;
  last_cloud_change_timestamp = 0;
  identifier = 0;
  light_payload = false;
  update_requested = false;
  encode_timestamp = false;
  echo_requested = false;
  timestamp = 0;
}

abbrev pub readable : Permission → Bool
readable read = true
readable write = false
readable read_write = true

abbrev pub writeable : Permission → Bool
writeable read = false
writeable write = true
writeable read_write = true

module _ {V D : Type 0} where
  unfoldable pub init : String → Permission → Option (ℕ → ℕ) → Property V D → Property V D
  init name permission func p = record p {
    name = name;
    permission = permission;
    get_time_func = func;
  }

  abbrev pub is_readable_by_cloud : Property V D → Bool
  is_readable_by_cloud p = readable p.permission

  abbrev pub is_writeable_by_cloud : Property V D → Bool
  is_writeable_by_cloud p = writeable p.permission

  abbrev pub is_writable_on_change : Property V D → Bool
  is_writable_on_change p = elim p.write_policy [ automatic ↦ true | manual ↦ false ]

  unfoldable pub request_update : Property V D → Property V D
  request_update p = record p { update_requested = true }

  unfoldable pub provide_echo : Property V D → Property V D
  provide_echo p = record p { echo_requested = true }

  unfoldable pub append_completed : Property V D → Property V D
  append_completed p =
      if p.has_been_appended_but_not_sended
      then record p { has_been_appended_but_not_sended = false }
      else p

  unfoldable pub set_last_cloud_change_timestamp : ℕ → Property V D → Property V D
  set_last_cloud_change_timestamp t p = record p { last_cloud_change_timestamp = t }

  unfoldable pub set_identifier : ℕ → Property V D → Property V D
  set_identifier n p = record p { identifier = n }

  -- `_get_time_func` reads a clock that shows `now`.
  unfoldable pub update_local_timestamp : ℕ → Property V D → Property V D
  update_local_timestamp now p =
      if is_readable_by_cloud p
      then elim p.get_time_func [
        | some f ↦ record p { last_local_change_timestamp = f now }
        | none ↦ p
      ]
      else p

-- `millis() - t`, which wraps.
abbrev pub elapsed : ℕ → ℕ → ℕ
elapsed now t = (now + u32_mod - t) % u32_mod

module _ {V D E M : Type 0} (m : Methods V D E M) where
  abbrev pub is_different_from_cloud : Property V D → Bool
  is_different_from_cloud p = m.is_different_from_cloud p.min_delta_property p.value

  -- The last part of `shouldBeUpdated`.
  abbrev pub policy_asks : ℕ → UpdatePolicy → Property V D → Bool
  policy_asks now on_change p =
      is_different_from_cloud p
      && leb p.min_time_between_updates_millis (elapsed now p.last_updated_millis)
  policy_asks now time_interval p = leb p.update_interval_millis (elapsed now p.last_updated_millis)
  policy_asks now on_demand p = p.update_requested

  unfoldable pub should_be_updated : ℕ → Property V D → Bool
  should_be_updated now p =
      if not p.has_been_updated_once
      then true
      else if p.has_been_appended_but_not_sended
      then true
      else if p.has_been_modified_in_callback
      then true
      else if p.echo_requested
      then true
      else policy_asks now p.update_policy p

  abbrev pub run_callback : Option (V → V) → V → V
  run_callback none v = v
  run_callback (some f) v = f v

  unfoldable pub exec_callback_on_change : Property V D → Property V D
  exec_callback_on_change p =
      let q = record p { value = run_callback p.update_callback_func p.value } in
      if is_different_from_cloud q then record q { has_been_modified_in_callback = true } else q

  abbrev pub from_cloud_to_local : Property V D → Property V D
  from_cloud_to_local p = record p { value = m.from_cloud_to_local p.value }

  -- `onAutoSync`, `onForceCloudSync`, `onForceDeviceSync`.
  unfoldable pub run_sync_callback : SyncCallback → Property V D → Property V D
  run_sync_callback no_callback p = p
  run_sync_callback on_auto_sync p =
      if ltb p.last_local_change_timestamp p.last_cloud_change_timestamp
      then exec_callback_on_change (from_cloud_to_local p)
      else p
  run_sync_callback on_force_cloud_sync p =
      if is_different_from_cloud p then exec_callback_on_change (from_cloud_to_local p) else p
  run_sync_callback on_force_device_sync p = p

  unfoldable pub exec_callback_on_sync : Property V D → Property V D
  exec_callback_on_sync p = run_sync_callback p.on_sync_callback_func p

  -- What `append` does after the attributes, by the result of encoding them.
  abbrev pub after_append : ℕ → Property V D → CborError → Property V D
  after_append now p no_error = record p {
    value = m.from_local_to_cloud p.value;
    has_been_updated_once = true;
    has_been_modified_in_callback = false;
    update_requested = false;
    echo_requested = false;
    has_been_appended_but_not_sended = true;
    last_updated_millis = now;
  }
  after_append now p _ = p

  unfoldable pub append : ℕ → Bool → Property V D → E → CborError × Property V D × E
  append now light p e =
      let q = record p { light_payload = light } in
      let (err, e') = m.append_attributes_to_cloud q e in (err, after_append now q err, e')

  abbrev pub set_attributes_from_cloud : List M → Property V D → Property V D
  set_attributes_from_cloud maps p = record p { value = m.set_attributes_from_cloud maps p.value }
