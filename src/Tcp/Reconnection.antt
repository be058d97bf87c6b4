-- ===== src/Tcp/Reconnection.antt =====
-- How the process of src/ArduinoIoTCloudTCP.cpp starts again after the connection is lost, and how
-- long it waits between its attempts to reach the broker.
use Prim.Native.String.{String}
use mathlib.Core.Path.{subst}
use arduino_io_tcloud.Common.{
  ℕ, suc, ◌+◌, ◌*◌, ◌^◌, ◌≡◌, ◌≤◌, ◌<◌, length, refl, sym, ap, ap₂, ◌∙◌, true, false, not, ◌&&◌,
  ◌||◌, some, List, [], ◌∷◌, if◌then◌else◌, arith, min,
}
use arduino_io_tcloud.Messages.{reset_cmd_id, message}
use arduino_io_tcloud.TimedAttempt.{TimedAttempt, begin, retry, reload, is_retry, is_expired}
use arduino_io_tcloud.TimedAttempt.Backoff.{Retried, retry-delay_fits}
use native.Mathlib.Nat.{pow-le-pow_right}
use arduino_io_tcloud.Property.{Methods}
use arduino_io_tcloud.Thing
use arduino_io_tcloud.Device
use arduino_io_tcloud.Tcp.{
  Connection, State, World, Codec, connect_phy, sync_time, connect_mqtt_broker, connected,
  disconnect, run_device, run_thing,
}
use arduino_io_tcloud.Tcp.Commands.{Decoder}
use arduino_io_tcloud.Tcp.Sending.{run_device-Kept, run_thing-Kept}
use arduino_io_tcloud.Tcp.States.{
  update, settle, run_state, handle_connect_phy, handle_sync_time, handle_connect_mqtt_broker,
  handle_disconnect, reconnection_retry_delay_ms, max_reconnection_retry_delay_ms,
}

-- A world in which the network is there and the broker cannot be reached, at a time when the timer
-- of the connection has run out.
pub record Refuses (w : World) (a : TimedAttempt) : Type 0 where
  pub network : w.network_connected ≡ true
  pub synced : w.time_synced ≡ true
  pub refused : w.broker_connects ≡ false
  pub due : not (is_retry a) || (is_retry a && is_expired w.clock.millis a) ≡ true

module _ {V D E M : Type 0} (m : Methods V D E M) (x : Codec E) (y : Decoder V D) where
  phy-refused :
      (w : World) (s : Connection V D)
      → s.state ≡ connect_phy
      → Refuses w s.connection_attempt
      → update m x y w [] s ≡ record s { state = sync_time }
  unfolding update handle_connect_phy
  phy-refused w s e r = ap settle (
      ap (λ (st : State). run_state m x y w [] st s) e
      ∙ ap (λ b. (if b then sync_time else connect_phy, s)) (ap₂ (λ a b. a && b) r.network r.due))

  sync-refused :
      (w : World) (s : Connection V D)
      → w.time_synced ≡ true
      → update m x y w [] (record s { state = sync_time })
        ≡ record s { state = connect_mqtt_broker }
  unfolding update handle_sync_time
  sync-refused w s e =
      ap (λ b. record s { state = if b then connect_mqtt_broker else connect_phy }) e

  broker-refused :
      (w : World) (s : Connection V D)
      → w.broker_connects ≡ false
      → update m x y w [] (record s { state = connect_mqtt_broker }) ≡ record s {
        state = connect_phy;
        connection_attempt = retry w.clock.millis s.connection_attempt;
      }
  unfolding update handle_connect_mqtt_broker
  broker-refused w s e =
      let s' = record s { state = connect_mqtt_broker } in
      ap
        (λ b. settle (
          if b then (connected, s') else (
            connect_phy,
            record s' { connection_attempt = retry w.clock.millis s.connection_attempt },
          )))
        e

  -- Three updates of such a world make one attempt at the broker, after which the process is back
  -- where it was, with the next retry of its timer, and the two other processes have not run.
  pub update-refused :
      (w : World) (s : Connection V D)
      → s.state ≡ connect_phy
      → Refuses w s.connection_attempt
      → update m x y w [] (update m x y w [] (update m x y w [] s))
        ≡ record s { connection_attempt = retry w.clock.millis s.connection_attempt }
  update-refused w s e r =
      let next = update m x y w [] in
      ap (λ z. next (next z)) (phy-refused w s e r)
      ∙ ap next (sync-refused w s r.synced)
      ∙ broker-refused w s r.refused
      ∙ ap
          (λ (st : State). record s {
            state = st;
            connection_attempt = retry w.clock.millis s.connection_attempt;
          })
          (sym e)

  device-reset :
      (w : World) (s : Connection V D)
      → ((run_device m x w (some reset_cmd_id) s).device.state ≡ Device.init)
        × ((run_device m x w (some reset_cmd_id) s).thing.state ≡ s.thing.state)
  unfolding Device.handle_message
  device-reset w s =
      let k = run_device-Kept m x w (some reset_cmd_id) s in
      (ap (λ (z : Connection V D). z.device.state) k, ap (λ (z : Connection V D). z.thing.state) k)

  disconnect-reset :
      (w : World) (s : Connection V D)
      → let s' = (handle_disconnect m x y w s).1 in
        (s'.device.state ≡ Device.init)
        × (s'.thing.state ≡ Thing.init)
        × (is_retry s'.connection_attempt ≡ false)
  unfolding handle_disconnect Thing.handle_message is_retry begin
  disconnect-reset w s =
      let msg = some (message reset_cmd_id) in
      let d = device-reset w (run_thing m x w msg s) in
      (d.0, d.1 ∙ ap (λ (z : Connection V D). z.thing.state) (run_thing-Kept m x w msg s), refl)

  -- After the connection is lost the two processes are reset, and the broker may be tried at once.
  pub update-lost :
      (w : World) (inbox : List (String × List ℕ)) (s : Connection V D)
      → s.state ≡ disconnect
      → let s' = update m x y w inbox s in
        (s'.state ≡ connect_phy)
        × (s'.device.state ≡ Device.init)
        × (s'.thing.state ≡ Thing.init)
        × (is_retry s'.connection_attempt ≡ false)
  unfolding update handle_disconnect
  update-lost w inbox s e =
      let h = disconnect-reset w s in
      subst
        (λ (st : State).
          let s' = settle (run_state m x y w inbox st s) in
          (s'.state ≡ connect_phy)
          × (s'.device.state ≡ Device.init)
          × (s'.thing.state ≡ Thing.init)
          × (is_retry s'.connection_attempt ≡ false))
        (sym e) (refl, h.0, h.1, h.2)

retry-Retried :
    (now lo hi n : ℕ) (a : TimedAttempt)
    → n < 31
    → Retried lo hi n a
    → Retried lo hi (suc n) (retry now a)
unfolding retry reload
retry-Retried now lo hi n a h r = record {
  same_min = r.same_min;
  same_max = r.same_max;
  counted = ground (arith, r.counted);
}

module _ {V D E M : Type 0} (m : Methods V D E M) (x : Codec E) (y : Decoder V D) where
  disconnect-Retried :
      (w : World) (s : Connection V D)
      → Retried 1000 32000 0 (handle_disconnect m x y w s).1.connection_attempt
  unfolding handle_disconnect begin
  disconnect-Retried w s = record { same_min = refl; same_max = refl; counted = refl }

  update-Retried :
      (w : World) (inbox : List (String × List ℕ)) (s : Connection V D)
      → s.state ≡ disconnect
      → Retried 1000 32000 0 (update m x y w inbox s).connection_attempt
  unfolding update
  update-Retried w inbox s e =
      subst
        (λ (st : State).
          Retried 1000 32000 0 (settle (run_state m x y w inbox st s)).connection_attempt)
        (sym e) (disconnect-Retried w s)

  -- One round for each of the worlds: from the check of the network to the broker's refusal.
  abbrev pub rounds : List World → Connection V D → Connection V D
  rounds [] s = s
  rounds (w ∷ ws) s = rounds ws (update m x y w [] (update m x y w [] (update m x y w [] s)))

  -- The broker refuses in each round.
  abbrev pub AllRefuse : List World → TimedAttempt → Type 0
  AllRefuse [] a = Unit {0}
  AllRefuse (w ∷ ws) a = Refuses w a × AllRefuse ws (retry w.clock.millis a)

  -- The wait after some rounds that the broker refuses, `k` refusals after the timer has begun.
  pub rounds-delay :
      (k : ℕ) (w : World) (ws : List World) (s : Connection V D)
      → s.state ≡ connect_phy
      → Retried reconnection_retry_delay_ms max_reconnection_retry_delay_ms k s.connection_attempt
      → k + suc (length ws) ≤ 22
      → AllRefuse (w ∷ ws) s.connection_attempt
      → (rounds (w ∷ ws) s).connection_attempt.retry_delay
        ≡ min
            (2 ^ (k + suc (length ws)) * reconnection_retry_delay_ms)
            max_reconnection_retry_delay_ms
  rounds-delay k w [] s e r h f =
      let fits = pow-le-pow_right {n = 2} (omega arith) {i = suc k} {j = 22} (omega arith) in
      let one : suc k ≡ k + 1 = omega arith in
      ap (λ (z : Connection V D). z.connection_attempt.retry_delay) (update-refused m x y w s e f.0)
      ∙ retry-delay_fits w.clock.millis 1000 32000 k s.connection_attempt (omega arith)
          (omega arith) r
      ∙ ap (λ n. min (2 ^ n * 1000) 32000) one
  rounds-delay k w (w' ∷ ws) s e r h f =
      let a = retry w.clock.millis s.connection_attempt in
      let more : suc k + suc (length ws) ≡ k + suc (suc (length ws)) = omega arith in
      ap (λ z. (rounds (w' ∷ ws) z).connection_attempt.retry_delay) (update-refused m x y w s e f.0)
      ∙ rounds-delay (suc k) w' ws (record s { connection_attempt = a }) e
          (retry-Retried w.clock.millis 1000 32000 k s.connection_attempt (omega arith) r)
          (omega arith) f.1
      ∙ ap (λ n. min (2 ^ n * 1000) 32000) more

  -- From the turn in which a lost connection is given up, whatever is in the inbox, the wait after the
  -- n-th refusal of the broker is 1000 ms times 2 ^ n, capped at 32000 ms, for up to 22 refusals, when
  -- the network is there and the time known, and each attempt is made once the timer has run out.
  pub disconnect-rounds :
      (lost w : World) (inbox : List (String × List ℕ)) (ws : List World) (s : Connection V D)
      → s.state ≡ disconnect
      → suc (length ws) ≤ 22
      → AllRefuse (w ∷ ws) (update m x y lost inbox s).connection_attempt
      → (rounds (w ∷ ws) (update m x y lost inbox s)).connection_attempt.retry_delay
        ≡ min (2 ^ suc (length ws) * 1000) 32000
  disconnect-rounds lost w inbox ws s e h f =
      let none_before : 0 + suc (length ws) ≡ suc (length ws) = omega arith in
      rounds-delay 0 w ws (update m x y lost inbox s) (update-lost m x y lost inbox s e).0
        (update-Retried lost inbox s e) (omega arith) f
      ∙ ap (λ n. min (2 ^ n * 1000) 32000) none_before
