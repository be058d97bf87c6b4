-- ===== src/Tcp/Attachment.antt =====
-- How the commands of the cloud attach the device of src/ArduinoIoTCloudTCP.cpp to a thing.
use Prim.Native.String.{String}
use text.Mathlib.Text.{◌==◌ as str_eq}
use mathlib.Core.Path.{subst}
use text.Mathlib.TextEquality.{eq_iff}
use arduino_io_tcloud.Common.{
  ℕ, ◌≡◌, ◌≢◌, refl, sym, ap, ap₂, ◌∙◌, ◌⊎◌, inl, inr, Bool, true, false, not, ◌&&◌, some, [], ◌∷◌,
  if◌then◌else◌, Bool-cases, arith,
}
use arduino_io_tcloud.Messages.{device_attached_cmd_id, device_detached_cmd_id}
use arduino_io_tcloud.Property.{Methods}
use arduino_io_tcloud.Device
use arduino_io_tcloud.Device.{Device}
use arduino_io_tcloud.Tcp.{
  Connection, World, Codec, run_device, attach_thing, detach_thing, topic, no_thing_id,
  connect_event, disconnect_event,
}
use arduino_io_tcloud.Tcp.Commands.{
  Decoder, leave_other, join, change_thing, handle_command, thing_update_cmd, thing_detach_cmd,
}
use arduino_io_tcloud.Tcp.Sending.{run_device-Kept}

-- The device's answer to the two commands.
attached-lem :
    (now : ℕ) (d : Device)
    → (Device.handle_message now (some device_attached_cmd_id) d).attached ≡ true
unfolding Device.handle_message
attached-lem now d = refl

detached-lem :
    (now : ℕ) (d : Device)
    → (Device.handle_message now (some device_detached_cmd_id) d).attached ≡ false
unfolding Device.handle_message
detached-lem now d = refl

-- `s` is attached to the thing `id`.
abbrev pub IsAttachedTo : {V D : Type 0} → String → Connection V D → Type 0
IsAttachedTo id s = (s.device.attached ≡ true) × (s.thing_id ≡ id)

module _ {V D E M : Type 0} (m : Methods V D E M) (x : Codec E) where
  attach_thing-attached :
      (w : World) (id : String) (s : Connection V D)
      → w.subscribes ≡ true
      → IsAttachedTo id (attach_thing m x w id s)
  unfolding attach_thing
  attach_thing-attached w id s e =
      let s' = record s {
        thing_id = id;
        data_topic_in = topic id "/e/i";
        data_topic_out = topic id "/e/o";
      } in
      let k = run_device-Kept m x w (some device_attached_cmd_id) s' in
      let s'' = run_device m x w (some device_attached_cmd_id) s' in
      subst
        (λ b. IsAttachedTo id (
          if b
          then record s'' { events = connect_event ∷ s''.events }
          else record s' { thing_id = no_thing_id }))
        (sym e)
        (
          ap (λ (z : Connection V D). z.device.attached) k
              ∙ attached-lem w.clock.millis (record (s.device) { delivered = [] }),
          ap (λ (z : Connection V D). z.thing_id) k,
        )

  -- The thing is left: the device is not attached, and has no thing.
  detach_thing-left :
      (w : World) (s : Connection V D)
      → w.unsubscribes ≡ true
      → ((detach_thing m x w s).device.attached ≡ false)
        × ((detach_thing m x w s).thing_id ≡ no_thing_id)
  unfolding detach_thing
  detach_thing-left w s e =
      let k = run_device-Kept m x w (some device_detached_cmd_id) s in
      let s' = run_device m x w (some device_detached_cmd_id) s in
      subst
        (λ b.
          let z =
            if b
            then record s' { thing_id = no_thing_id; events = disconnect_event ∷ s'.events }
            else s in
          (z.device.attached ≡ false) × (z.thing_id ≡ no_thing_id))
        (sym e)
        (
          ap (λ (z : Connection V D). z.device.attached) k
              ∙ detached-lem w.clock.millis (record (s.device) { delivered = [] }),
          refl,
        )

  join-free :
      (w : World) (id : String) (s : Connection V D)
      → w.subscribes ≡ true
      → s.device.attached ≡ false
      → IsAttachedTo id (join m x w id s)
  unfolding join
  join-free w id s e f =
      subst (λ b. IsAttachedTo id (if not b then attach_thing m x w id s else s)) (sym f)
        (attach_thing-attached w id s e)

  join-same :
      (w : World) (id : String) (s : Connection V D)
      → IsAttachedTo id s
      → IsAttachedTo id (join m x w id s)
  unfolding join
  join-same w id s h =
      subst (λ b. IsAttachedTo id (if not b then attach_thing m x w id s else s)) (sym h.0) h

  leave_other-cases :
      (w : World) (id : String) (s : Connection V D)
      → w.unsubscribes ≡ true
      → ((leave_other m x w id s).device.attached ≡ false)
        ⊎ IsAttachedTo id (leave_other m x w id s)
  unfolding leave_other
  leave_other-cases w id s e =
      let Left = λ (z : Connection V D). (z.device.attached ≡ false) ⊎ IsAttachedTo id z in
      let P = λ (b : Bool). Left (if b then detach_thing m x w s else s) in
      elim (Bool-cases s.device.attached) [
        | inr free ↦ subst P (sym (ap (λ b. b && not (str_eq s.thing_id id)) free)) (inl free)
        | inl taken ↦ elim (Bool-cases (str_eq s.thing_id id)) [
          | inl same ↦
              subst P (sym (ap₂ (λ a b. a && not b) taken same))
                (inr (taken, (eq_iff s.thing_id id).0 same))
          | inr other ↦
              subst P (sym (ap₂ (λ a b. a && not b) taken other)) (inl (detach_thing-left w s e).0)
        ]
      ]

module _ {V D E M : Type 0} (m : Methods V D E M) (x : Codec E) (y : Decoder V D) where
  -- When the cloud names a thing, and the broker takes the subscriptions, the device is attached to
  -- that thing afterwards, whichever thing it was attached to before, if any.
  pub thing_update-attached :
      (w : World) (id : String) (s : Connection V D)
      → id ≢ ""
      → w.subscribes ≡ true
      → w.unsubscribes ≡ true
      → IsAttachedTo id (handle_command m x y w (thing_update_cmd id) s)
  unfolding handle_command change_thing
  thing_update-attached w id s n e f =
      let named : str_eq id "" ≡ false = ground (arith, eq_iff id "") in
      let s' = leave_other m x w id s in
      rw named (elim (leave_other-cases m x w id s f) [
        | inl free ↦ join-free m x w id s' e free
        | inr same ↦ join-same m x w id s' same
      ])

  -- If the broker takes the unsubscription, a detach command detaches the device, also when it names
  -- another thing than the device is attached to.
  pub thing_detach-any :
      (w : World) (id : String) (s : Connection V D)
      → w.unsubscribes ≡ true
      → ((handle_command m x y w (thing_detach_cmd id) s).device.attached ≡ false)
        × ((handle_command m x y w (thing_detach_cmd id) s).thing_id ≡ no_thing_id)
  unfolding handle_command
  thing_detach-any w id s e = detach_thing-left m x w s e
