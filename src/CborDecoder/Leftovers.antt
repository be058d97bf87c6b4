-- ===== src/CborDecoder/Leftovers.antt =====
-- What src/cbor/CBORDecoder.cpp keeps from one map to the next.
use Prim.Native.String.{String}
use text.Mathlib.Text.{◌==◌ as str_eq}
use arduino_io_tcloud.Common.{ℕ, ◌≡◌, refl, ◌∙◌, Bool, false, some, List, [], ◌∷◌, ℤ}
use arduino_io_tcloud.Property.{Methods}
use arduino_io_tcloud.Property.Attributes.{CborMapData, Doubles, set_bool}
use arduino_io_tcloud.Container.{PropertyContainer, update_property}
use arduino_io_tcloud.CborDecoder.{Parser, Floats, name_of_identifier, new_map_data, property_part}
use arduino_io_tcloud.CborDecoder.Machine.{decode, next_base_time, next_time}
use arduino_io_tcloud.CborDecoder.Senml.{
  Number, Message, has_name, has_value, has_boolean_value, Shows, put_all, contents, named, runs,
  update_all, meaning, rounds,
}
use arduino_io_tcloud.CborDecoder.Refinement.{decode-meaning}

-- A Boolean for one property and a number for the next.
abbrev pub mixed : {F : Type 0} → String → Bool → String → Number F → Message F
mixed a b k x = (has_name a ∷ has_boolean_value b ∷ []) ∷ (has_name k ∷ has_value x ∷ []) ∷ []

module _ {V D E I F : Type 0} (p : Parser I F) (m : Methods V D E (CborMapData F)) (d : Floats F)
    (sync : Bool) where
  -- The map of the number still holds the Boolean of the map before it, and a Boolean property takes
  -- that one and not the number.
  pub decode-leftover :
      {G : Type 0} (f : Doubles F G) (n : ℕ) (memory : CborMapData F) (payload : List ℕ)
      → (a k : String) (b v : Bool) (x : Number F) (c : PropertyContainer V D)
      → Shows p payload
          (has_name a ∷ has_boolean_value b ∷ [])
          ((has_name k ∷ has_value x ∷ []) ∷ [])
      → str_eq (property_part a) "" ≡ false
      → str_eq (property_part k) (property_part a) ≡ false
      → (md : CborMapData F) × (md' : CborMapData F) × (decode p m d sync
            (rounds (mixed a b k x) n)
            memory
            payload
            c
          ≡ some (
              update_property m
                (property_part k)
                0
                sync
                (md' ∷ [])
                (update_property m (property_part a) 0 sync (md ∷ []) c)))
        × (set_bool f md' v ≡ b)
  unfolding meaning contents put_all named runs update_all next_base_time next_time new_map_data
      set_bool
  decode-leftover f n memory payload a k b v x c h e e' =
      let names = λ (i : ℤ). name_of_identifier i c in
      let md = put_all d names (has_name a ∷ has_boolean_value b ∷ []) (new_map_data memory) in
      let md' = put_all d names (has_name k ∷ has_value x ∷ []) md in
      (md, md', decode-meaning p m d sync n memory payload _ _ c h ∙ rw (e, e'), refl)
