-- ===== src/CborDecoder/Taking.antt =====
-- What the end of a map in src/cbor/CBORDecoder.cpp does to the property that is being read.
use Prim.Native.String.{String}
use text.Mathlib.Text.{◌==◌ as str_eq}
use arduino_io_tcloud.Common.{
  ℕ, ◌+◌, ◌%◌, ◌≡◌, refl, ap, ap₂, ◌∙◌, ◌⊎◌, inl, inr, Bool, true, false, List, [], ◌∷◌, ◌++◌,
  Bool-cases, if◌then◌else◌, ℤ, u32_mod,
}
use arduino_io_tcloud.Property.{Methods}
use arduino_io_tcloud.Property.Attributes.{CborMapData}
use arduino_io_tcloud.Container.{PropertyContainer, update_property}
use arduino_io_tcloud.CborDecoder.{Floats, Decoding, name_of_identifier, property_part}
use arduino_io_tcloud.CborDecoder.Machine.{
  take_map, add_map, change_property, next_base_time, next_time,
}
use arduino_io_tcloud.CborDecoder.Senml.{named, runs, base_time_from, time_from, update_all}
use arduino_io_tcloud.CborDecoder.Naming.{name_of_identifier-update}

module _ {F : Type 0} (d : Floats F) where
  base_time_from-append :
      (t : ℕ) (mds : List (CborMapData F)) (md : CborMapData F)
      → next_base_time d md (base_time_from d t mds) ≡ base_time_from d t (mds ++ md ∷ [])
  base_time_from-append t [] md = refl
  base_time_from-append t (x ∷ mds) md = base_time_from-append (next_base_time d x t) mds md

  time_from-append :
      (t : ℕ) (mds : List (CborMapData F)) (md : CborMapData F)
      → next_time d md (time_from d t mds) ≡ time_from d t (mds ++ md ∷ [])
  time_from-append t [] md = refl
  time_from-append t (x ∷ mds) md = time_from-append (next_time d x t) mds md

module _ {V D E I F : Type 0} (m : Methods V D E (CborMapData F)) (d : Floats F) (sync : Bool) where
  -- The machine with the maps `maps` of the current property `n`.
  abbrev pub state :
      PropertyContainer V D
      → I
      → I
      → CborMapData F
      → String
      → List (CborMapData F)
      → Decoding V D I F
  state c i v md n maps = record {
    property_container = c;
    map_iter = i;
    value_iter = v;
    map_data = md;
    current_property_name = n;
    current_property_base_time = base_time_from d 0 maps;
    current_property_time = time_from d 0 maps;
    map_data_list = maps;
  }

  -- What the end of a map does, and that the updates still to come stay the same.
  pub record Taken (c : PropertyContainer V D) (i v : I) (md : CborMapData F) (n : String)
      (maps : List (CborMapData F)) : Type 0 where
    pub new_container : PropertyContainer V D
    pub new_name : String
    pub new_maps : List (CborMapData F)
    pub is_taken :
        take_map m d sync (state c i v md n maps) ≡ state new_container i v md new_name new_maps
    pub same_updates :
        (mds : List (CborMapData F))
        → update_all d m sync (runs n maps (named (md ∷ mds))) c
          ≡ update_all d m sync (runs new_name new_maps (named mds)) new_container
    pub same_names : (k : ℤ) → name_of_identifier k new_container ≡ name_of_identifier k c

  module _ (c : PropertyContainer V D) (i v : I) (md : CborMapData F) (n : String)
      (maps : List (CborMapData F)) where
    abbrev its_name : String
    its_name = property_part md.name.entry

    abbrev before_it : Decoding V D I F
    before_it = state c i v md n maps

    take-unnamed : md.name.is_set ≡ false → take_map m d sync before_it ≡ before_it
    unfolding take_map
    take-unnamed e =
        ap
          (λ b.
            if b
            then add_map m d sync its_name (change_property m sync its_name before_it)
            else before_it)
          e

    take-named :
        md.name.is_set ≡ true
        → take_map m d sync before_it
          ≡ add_map m d sync its_name (change_property m sync its_name before_it)
    unfolding take_map
    take-named e =
        ap
          (λ b.
            if b
            then add_map m d sync its_name (change_property m sync its_name before_it)
            else before_it)
          e

    named-is :
        (b : Bool) (mds : List (CborMapData F))
        → md.name.is_set ≡ b
        → named (md ∷ mds) ≡ (if b then md ∷ named mds else named mds)
    unfolding named
    named-is b mds e = ap (λ b. if b then md ∷ named mds else named mds) e

    abbrev same_run : Decoding V D I F
    same_run = state c i v md its_name (maps ++ md ∷ [])

    abbrev updated : PropertyContainer V D
    updated =
        update_property m n ((base_time_from d 0 maps + time_from d 0 maps) % u32_mod) sync maps c

    add-same : add_map m d sync its_name before_it ≡ same_run
    add-same =
        ap₂
          (λ (t u : ℕ). record before_it {
            current_property_base_time = t;
            current_property_time = u;
            map_data_list = maps ++ md ∷ [];
            current_property_name = its_name;
          })
          (base_time_from-append d 0 maps md) (time_from-append d 0 maps md)

    take-same :
        md.name.is_set ≡ true
        → (str_eq n "" ≡ true) ⊎ (str_eq its_name n ≡ true)
        → Taken c i v md n maps
    unfolding change_property runs
    take-same e h = record {
      new_container = c;
      new_name = its_name;
      new_maps = maps ++ md ∷ [];
      is_taken = take-named e ∙ ap (add_map m d sync its_name) (unchanged h) ∙ add-same;
      same_updates = λ mds.
          ap (λ l. update_all d m sync (runs n maps l) c) (named-is true mds e) ∙ joined h mds;
      same_names = λ k. refl;
    }
      where
        unchanged :
            (str_eq n "" ≡ true) ⊎ (str_eq its_name n ≡ true)
            → change_property m sync its_name before_it ≡ before_it
        unchanged (inl a) = rw a
        unchanged (inr b) = elim (Bool-cases (str_eq n "")) [ inl a ↦ rw a | inr a ↦ rw (a, b) ]

        joined :
            (str_eq n "" ≡ true) ⊎ (str_eq its_name n ≡ true)
            → (mds : List (CborMapData F))
            → update_all d m sync (runs n maps (md ∷ named mds)) c
              ≡ update_all d m sync (runs its_name (maps ++ md ∷ []) (named mds)) c
        joined (inl a) mds = rw a
        joined (inr b) mds = elim (Bool-cases (str_eq n "")) [ inl a ↦ rw a | inr a ↦ rw (a, b) ]

    take-other :
        md.name.is_set ≡ true
        → str_eq n "" ≡ false
        → str_eq its_name n ≡ false
        → Taken c i v md n maps
    unfolding change_property runs update_all
    take-other e a b = record {
      new_container = updated;
      new_name = its_name;
      new_maps = md ∷ [];
      is_taken = take-named e ∙ rw (a, b);
      same_updates =
          λ mds. ap (λ l. update_all d m sync (runs n maps l) c) (named-is true mds e) ∙ rw (a, b);
      same_names = name_of_identifier-update m n _ sync maps c;
    }

    pub take : Taken c i v md n maps
    take = elim (Bool-cases md.name.is_set) [
      | inr e ↦ record {
        new_container = c;
        new_name = n;
        new_maps = maps;
        is_taken = take-unnamed e;
        same_updates =
            λ mds. ap (λ l. update_all d m sync (runs n maps l) c) (named-is false mds e);
        same_names = λ k. refl;
      }
      | inl e ↦ elim (Bool-cases (str_eq n "")) [
        | inl a ↦ take-same e (inl a)
        | inr a ↦ elim (Bool-cases (str_eq its_name n)) [
          | inl b ↦ take-same e (inr b)
          | inr b ↦ take-other e a b
        ]
      ]
    ]
