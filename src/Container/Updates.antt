-- ===== src/Container/Updates.antt =====
-- What a value from the cloud does to the container of src/property/PropertyContainer.cpp.
use Prim.Native.String.{String}
use text.Mathlib.Text.{◌==◌ as str_eq}
use text.Mathlib.TextEquality.{eq_iff}
use mathlib.Core.Option
use arduino_io_tcloud.Common.{
  ℕ, ltb, ◌≡◌, refl, sym, ap, ◌∙◌, not, inl, inr, Bool, true, false, none, some, List, [], ◌∷◌,
  Bool-cases, if◌then◌else◌, arith,
}
use arduino_io_tcloud.Property.{
  Property, Methods, run_sync_callback, run_callback, is_writeable_by_cloud, should_be_updated,
  exec_callback_on_change, exec_callback_on_sync, provide_echo, is_different_from_cloud,
  set_last_cloud_change_timestamp, no_callback, on_auto_sync, on_force_cloud_sync,
  on_force_device_sync, SyncCallback, from_cloud_to_local, set_attributes_from_cloud,
  is_writable_on_change,
}
use arduino_io_tcloud.Container.{PropertyContainer, get_property, modify, receive, update_property}

module _ {A : Type 0} where
  if_same : (b : Bool) (x : A) → x ≡ (if b then x else x)
  if_same true x = refl
  if_same false x = refl

  if_twice : (b : Bool) (x y z : A) → (if b then x else y) ≡ (if b then x else if b then z else y)
  if_twice true x y z = refl
  if_twice false x y z = refl

  if_swap :
      (a b : Bool) (x y z : A)
      → (a ≡ true → b ≡ false)
      → (if b then x else if a then y else z) ≡ (if a then y else if b then x else z)
  if_swap true b x y z h = rw (h refl)
  if_swap false b x y z h = refl

module _ {V D : Type 0} where
  -- Both branches of a test keep the name.
  if-name :
      (b : Bool) (x y : Property V D) {n : String}
      → x.name ≡ n
      → y.name ≡ n
      → (if b then x else y).name ≡ n
  if-name true x y h k = h
  if-name false x y h k = k

  if-value :
      (b : Bool) (x y : Property V D) {v : V}
      → x.value ≡ v
      → y.value ≡ v
      → (if b then x else y).value ≡ v
  if-value true x y h k = h
  if-value false x y h k = k

  unchanged :
      (k j : String) (c : PropertyContainer V D) {p : Property V D}
      → get_property k c ≡ some p
      → get_property j c ≡ (if str_eq k j then some p else get_property j c)
  unchanged k j c e = elim (Bool-cases (str_eq k j)) [
    | inl t ↦ rw t (ap (λ n. get_property n c) (sym ((eq_iff k j).0 t)) ∙ e)
    | inr t ↦ rw t
  ]

  -- A change of the property `k` that keeps its name is seen under `k` only.
  get_property-modify :
      (k j : String) (f : Property V D → Property V D) (c : PropertyContainer V D)
      → ((p : Property V D) → (f p).name ≡ p.name)
      → get_property j (modify k f c)
        ≡ (if str_eq k j then Option.map f (get_property k c) else get_property j c)
  unfolding get_property modify
  get_property-modify k j f [] h = if_same (str_eq k j) none
  get_property-modify k j f (p ∷ c) h = elim (Bool-cases (str_eq p.name k)) [
    | inl e ↦
        let named : p.name ≡ k = (eq_iff p.name k).0 e in
        let hit : str_eq (f p).name j ≡ str_eq k j = ap (λ n. str_eq n j) (h p ∙ named) in
        let miss : str_eq p.name j ≡ str_eq k j = ap (λ n. str_eq n j) named in
        rw (e, get_property, hit, miss)
          (if_twice (str_eq k j) (some (f p)) (get_property j c) (some p))
    | inr e ↦
        let apart : str_eq k j ≡ true → str_eq p.name j ≡ false =
          λ t. ground (arith, eq_iff k j, eq_iff p.name j, eq_iff p.name k) in
        rw (e, get_property)
          (ap (λ o. if str_eq p.name j then some p else o) (get_property-modify k j f c h)
            ∙ if_swap (str_eq k j) (str_eq p.name j) (some p) (Option.map f (get_property k c))
                (get_property j c) apart)
  ]

module _ {V D E M : Type 0} (m : Methods V D E M) where
  exec_callback_on_change-name : (p : Property V D) → (exec_callback_on_change m p).name ≡ p.name
  unfolding exec_callback_on_change
  exec_callback_on_change-name p =
      let q = record p { value = run_callback m p.update_callback_func p.value } in
      if-name (is_different_from_cloud m q) (record q { has_been_modified_in_callback = true }) q
        refl refl

  accept-name :
      (p : Property V D) → (exec_callback_on_change m (from_cloud_to_local m p)).name ≡ p.name
  accept-name p = exec_callback_on_change-name (from_cloud_to_local m p)

  run_sync_callback-name :
      (s : SyncCallback) (p : Property V D) → (run_sync_callback m s p).name ≡ p.name
  unfolding run_sync_callback
  run_sync_callback-name no_callback p = refl
  run_sync_callback-name on_auto_sync p =
      if-name (ltb p.last_local_change_timestamp p.last_cloud_change_timestamp)
        (exec_callback_on_change m (from_cloud_to_local m p)) p (accept-name p) refl
  run_sync_callback-name on_force_cloud_sync p =
      if-name (is_different_from_cloud m p) (exec_callback_on_change m (from_cloud_to_local m p)) p
        (accept-name p) refl
  run_sync_callback-name on_force_device_sync p = refl

  receive-name :
      (time : ℕ) (sync : Bool) (maps : List M) (p : Property V D)
      → (receive m time sync maps p).name ≡ p.name
  unfolding receive set_last_cloud_change_timestamp provide_echo exec_callback_on_sync
  receive-name time true maps p =
      let q = set_attributes_from_cloud m maps (set_last_cloud_change_timestamp time p) in
      run_sync_callback-name q.on_sync_callback_func q
  receive-name time false maps p =
      let q = set_attributes_from_cloud m maps (set_last_cloud_change_timestamp time p) in
      exec_callback_on_change-name (if is_writable_on_change q then from_cloud_to_local m q else q)
      ∙ if-name (is_writable_on_change q) (from_cloud_to_local m q) q refl refl

  update-found :
      (k : String) (time : ℕ) (sync : Bool) (maps : List M) (c : PropertyContainer V D)
      → {p : Property V D} → get_property k c ≡ some p
      → update_property m k time sync maps c
        ≡ (if is_writeable_by_cloud p then modify k (receive m time sync maps) c else c)
  unfolding update_property
  update-found k time sync maps c e = rw (e, update_property)

  -- What `updateProperty` leaves under each name: the addressed property, if the cloud may write
  -- it, has received the value, and every other property is as before.
  pub get_property-update :
      (k j : String) (time : ℕ) (sync : Bool) (maps : List M) (c : PropertyContainer V D)
      → {p : Property V D} → get_property k c ≡ some p
      → get_property j (update_property m k time sync maps c) ≡ (
          if str_eq k j
          then some (if is_writeable_by_cloud p then receive m time sync maps p else p)
          else get_property j c)
  get_property-update k j time sync maps c {p} e =
      ap (get_property j) (update-found k time sync maps c e)
      ∙ elim (Bool-cases (is_writeable_by_cloud p)) [
        | inl w ↦
            let f = receive m time sync maps in
            rw w (
              get_property-modify k j f c (receive-name time sync maps)
              ∙ ap (λ o. if str_eq k j then Option.map f o else get_property j c) e)
        | inr w ↦ rw w (unchanged k j c e)
      ]

  all_true :
      (a b c : Bool) → (if a then true else if b then true else if c then true else true) ≡ true
  all_true true b c = refl
  all_true false true c = refl
  all_true false false true = refl
  all_true false false false = refl

  echo-asks :
      (now : ℕ) (p : Property V D) → p.echo_requested ≡ true → should_be_updated m now p ≡ true
  unfolding should_be_updated
  echo-asks now p e =
      rw (e, should_be_updated)
        (all_true (not p.has_been_updated_once) p.has_been_appended_but_not_sended
          p.has_been_modified_in_callback)

  exec_callback_on_change-value :
      (p : Property V D)
      → (exec_callback_on_change m p).value ≡ run_callback m p.update_callback_func p.value
  unfolding exec_callback_on_change
  exec_callback_on_change-value p =
      let q = record p { value = run_callback m p.update_callback_func p.value } in
      if-value (is_different_from_cloud m q) (record q { has_been_modified_in_callback = true }) q
        refl refl

  -- After a value that is no synchronisation the property asks to be sent back at once, and the
  -- user's variable has the new value exactly if the write policy is automatic.
  pub receive_echo :
      (time now : ℕ) (maps : List M) (p : Property V D)
      → (should_be_updated m now (receive m time false maps p) ≡ true)
        × ((receive m time false maps p).value
            ≡ run_callback m p.update_callback_func (
                if is_writable_on_change p
                then m.from_cloud_to_local (m.set_attributes_from_cloud maps p.value)
                else m.set_attributes_from_cloud maps p.value))
  unfolding receive should_be_updated provide_echo exec_callback_on_change
      set_last_cloud_change_timestamp
  receive_echo time now maps p =
      let q = set_attributes_from_cloud m maps (set_last_cloud_change_timestamp time p) in
      (
        echo-asks now (receive m time false maps p) refl,
        elim (Bool-cases (is_writable_on_change p)) [
          | inl w ↦ rw w (exec_callback_on_change-value (from_cloud_to_local m q))
          | inr w ↦ rw w (exec_callback_on_change-value q)
        ],
      )
