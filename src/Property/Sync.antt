-- ===== src/Property/Sync.antt =====
-- What the synchronisation callbacks of src/property/Property.cpp decide when the device and the
-- cloud hold different values after a reconnection.
use arduino_io_tcloud.Common.{◌≡◌, ap, ◌∙◌, inl, inr, true, false, none, Bool-cases, if◌then◌else◌}
use arduino_io_tcloud.Property.{
  Property, Methods, on_force_cloud_sync, is_different_from_cloud, from_cloud_to_local,
  run_sync_callback, exec_callback_on_change, run_callback,
}
use arduino_io_tcloud.Property.Policy.{IsFaithful}

module _ {V D E M : Type 0} (m : Methods V D E M) where
  -- Without a user callback, the callback after a change does nothing to an accepted value.
  accept-lem :
      (p : Property V D)
      → IsFaithful m
      → p.update_callback_func ≡ none
      → exec_callback_on_change m (from_cloud_to_local m p) ≡ from_cloud_to_local m p
  unfolding exec_callback_on_change
  accept-lem p f n =
      let taken = λ (v : V). record p { value = v } in
      ap
        (λ c.
          let q = taken (run_callback m c (m.from_cloud_to_local p.value)) in
          if is_different_from_cloud m q
          then record q { has_been_modified_in_callback = true }
          else q)
        n
      ∙ ap
          (λ b.
            let q = taken (m.from_cloud_to_local p.value) in
            if b then record q { has_been_modified_in_callback = true } else q)
          (f.accepted p.min_delta_property p.value)

  -- CLOUD_WINS: afterwards the two values agree.
  pub run_sync_callback-cloud :
      (p : Property V D)
      → IsFaithful m
      → p.update_callback_func ≡ none
      → is_different_from_cloud m (run_sync_callback m on_force_cloud_sync p) ≡ false
  unfolding run_sync_callback
  run_sync_callback-cloud p f n = elim (Bool-cases (is_different_from_cloud m p)) [
    | inl differs ↦ rw differs (
        ap (is_different_from_cloud m) (accept-lem p f n) ∙ f.accepted p.min_delta_property p.value)
    | inr same ↦ rw same same
  ]
