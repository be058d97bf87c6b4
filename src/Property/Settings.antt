-- ===== src/Property/Settings.antt =====
-- The functions of src/property/Property.cpp that a sketch calls to set a property up.
use arduino_io_tcloud.Common.{ℕ, ◌*◌, ◌%◌, some, true, u32_mod}
use arduino_io_tcloud.Property.{
  Property, SyncCallback, on_change, time_interval, on_demand, automatic, manual,
}

module _ {V D : Type 0} where
  unfoldable pub publish_on_change : D → ℕ → Property V D → Property V D
  publish_on_change d t p = record p {
    update_policy = on_change;
    min_delta_property = d;
    min_time_between_updates_millis = t;
  }

  unfoldable pub publish_every : ℕ → Property V D → Property V D
  publish_every seconds p = record p {
    update_policy = time_interval;
    update_interval_millis = seconds * 1000 % u32_mod;
  }

  unfoldable pub publish_on_demand : Property V D → Property V D
  publish_on_demand p = record p { update_policy = on_demand }

  unfoldable pub on_update : (V → V) → Property V D → Property V D
  on_update func p = record p { update_callback_func = some func }

  unfoldable pub on_sync : SyncCallback → Property V D → Property V D
  on_sync func p = record p { on_sync_callback_func = func }

  -- `encodeTimestamp`.
  unfoldable pub request_timestamp : Property V D → Property V D
  request_timestamp p = record p { encode_timestamp = true }

  unfoldable pub set_timestamp : ℕ → Property V D → Property V D
  set_timestamp t p = record p { timestamp = t }

  unfoldable pub set_last_local_change_timestamp : ℕ → Property V D → Property V D
  set_last_local_change_timestamp t p = record p { last_local_change_timestamp = t }

  unfoldable pub write_on_change : Property V D → Property V D
  write_on_change p = record p { write_policy = automatic }

  unfoldable pub write_on_demand : Property V D → Property V D
  write_on_demand p = record p { write_policy = manual }
