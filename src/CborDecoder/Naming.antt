-- ===== src/CborDecoder/Naming.antt =====
-- The names and identifiers of the properties in src/property/PropertyContainer.cpp stay as they are
-- while src/cbor/CBORDecoder.cpp hands values to them.
use Prim.Native.String.{String}
use text.Mathlib.Text.{◌==◌ as str_eq}
use arduino_io_tcloud.Common.{
  ℕ, ◌%◌, ◌≡◌, refl, ap, ◌∙◌, inl, inr, Bool, true, false, Option, List, [], ◌∷◌, ◌==◌, ltb,
  Option-cases, Bool-cases, if_both, if◌then◌else◌, ℤ,
}
use arduino_io_tcloud.Property.{
  Property, Methods, SyncCallback, no_callback, on_auto_sync, on_force_cloud_sync,
  on_force_device_sync, run_sync_callback, exec_callback_on_change, exec_callback_on_sync,
  from_cloud_to_local, run_callback, is_different_from_cloud, is_writable_on_change,
  is_writeable_by_cloud, set_attributes_from_cloud, set_last_cloud_change_timestamp, provide_echo,
}
use arduino_io_tcloud.Container.{
  PropertyContainer, get_property, get_property_by_identifier, modify, name_or_empty, receive,
  update_property, get_property_name_by_identifier,
}
use arduino_io_tcloud.CborDecoder.{name_of_identifier}

module _ {V D : Type 0} where
  -- A property with the name and the identifier of another.
  abbrev Alike : Property V D → Property V D → Type 0
  Alike p q = (q.name ≡ p.name) × (q.identifier ≡ p.identifier)

  abbrev pub found_name : ℕ → PropertyContainer V D → String
  found_name n c = name_or_empty (get_property_by_identifier n c)

  found-modify :
      (k : String) (f : Property V D → Property V D) (c : PropertyContainer V D) (n : ℕ)
      → ((p : Property V D) → Alike p (f p))
      → found_name n (modify k f c) ≡ found_name n c
  unfolding get_property_by_identifier modify
  found-modify k f [] n h = refl
  found-modify k f (p ∷ c) n h = elim (Bool-cases (str_eq p.name k)) [
    | inl e ↦ rw e (same_head p (f p) c (h p))
    | inr e ↦ rw e (same_tail p (modify k f c) c (found-modify k f c n h))
  ]
    where
      found : Option (Property V D) → String
      found o = name_or_empty o

      same_tail :
          (p : Property V D) (c d : PropertyContainer V D)
          → found_name n c ≡ found_name n d
          → found_name n (p ∷ c) ≡ found_name n (p ∷ d)
      same_tail p c d h = elim (Bool-cases (p.identifier == n)) [ inl e ↦ rw e | inr e ↦ rw e h ]

      same_head :
          (p q : Property V D) (c : PropertyContainer V D)
          → Alike p q
          → found_name n (q ∷ c) ≡ found_name n (p ∷ c)
      same_head p q c (a, b) = elim (Bool-cases (p.identifier == n)) [
        | inl e ↦ rw (ap (λ i. i == n) b, e) a
        | inr e ↦ rw (ap (λ i. i == n) b, e)
      ]

module _ {V D E M : Type 0} (m : Methods V D E M) where
  exec-Alike : (p : Property V D) → Alike p (exec_callback_on_change m p)
  unfolding exec_callback_on_change
  exec-Alike p =
      let q = record p { value = run_callback m p.update_callback_func p.value } in
      if_both (Alike p) (is_different_from_cloud m q)
        (record q { has_been_modified_in_callback = true }) q (refl, refl) (refl, refl)

  accept-Alike : (p : Property V D) → Alike p (exec_callback_on_change m (from_cloud_to_local m p))
  accept-Alike p = exec-Alike (from_cloud_to_local m p)

  sync-Alike : (s : SyncCallback) (p : Property V D) → Alike p (run_sync_callback m s p)
  unfolding run_sync_callback
  sync-Alike no_callback p = (refl, refl)
  sync-Alike on_auto_sync p =
      if_both (Alike p) (ltb p.last_local_change_timestamp p.last_cloud_change_timestamp)
        (exec_callback_on_change m (from_cloud_to_local m p)) p (accept-Alike p) (refl, refl)
  sync-Alike on_force_cloud_sync p =
      if_both (Alike p) (is_different_from_cloud m p)
        (exec_callback_on_change m (from_cloud_to_local m p)) p (accept-Alike p) (refl, refl)
  sync-Alike on_force_device_sync p = (refl, refl)

  receive-Alike :
      (time : ℕ) (sync : Bool) (maps : List M) (p : Property V D)
      → Alike p (receive m time sync maps p)
  unfolding receive set_last_cloud_change_timestamp provide_echo exec_callback_on_sync
  receive-Alike time true maps p =
      let q = set_attributes_from_cloud m maps (set_last_cloud_change_timestamp time p) in
      sync-Alike q.on_sync_callback_func q
  receive-Alike time false maps p =
      let q = set_attributes_from_cloud m maps (set_last_cloud_change_timestamp time p) in
      let r = if is_writable_on_change q then from_cloud_to_local m q else q in
      let a = exec-Alike r in
      let b =
        if_both (Alike q) (is_writable_on_change q) (from_cloud_to_local m q) q (refl, refl)
          (refl, refl) in
      (a.0 ∙ b.0, a.1 ∙ b.1)

  found-update :
      (k : String) (time : ℕ) (sync : Bool) (maps : List M) (c : PropertyContainer V D) (n : ℕ)
      → found_name n (update_property m k time sync maps c) ≡ found_name n c
  unfolding update_property
  found-update k time sync maps c n = elim (Option-cases (get_property k c)) [
    | inl e ↦ rw (e, update_property)
    | inr (p, e) ↦
        rw (e, update_property)
          (if_both (λ d. found_name n d ≡ found_name n c) (is_writeable_by_cloud p)
            (modify k (receive m time sync maps) c) c
            (found-modify k (receive m time sync maps) c n (receive-Alike time sync maps)) refl)
  ]

  -- The name behind an identifier.
  pub name_of_identifier-update :
      (k : String) (time : ℕ) (sync : Bool) (maps : List M) (c : PropertyContainer V D) (n : ℤ)
      → name_of_identifier n (update_property m k time sync maps c) ≡ name_of_identifier n c
  unfolding name_of_identifier get_property_name_by_identifier
  name_of_identifier-update k time sync maps c (ℤ.pos n) =
      found-update k time sync maps c (if ltb 255 n then n % 256 else n)
  name_of_identifier-update k time sync maps c (ℤ.negsuc n) = refl
