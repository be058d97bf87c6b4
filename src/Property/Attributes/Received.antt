-- ===== src/Property/Attributes/Received.antt =====
-- Which of the received maps decides the value of an attribute in src/property/Property.cpp.
use Prim.Native.String.{String}
use text.Mathlib.Text.{◌==◌ as str_eq}
use text.Mathlib.TextEquality.{eq_iff}
use arduino_io_tcloud.Common.{
  ℕ, ◌+◌, ◌≡◌, ◌≢◌, ◌⊎◌, inl, inr, refl, ap, ◌∙◌, true, false, ◌&&◌, List, [], ◌∷◌, ◌++◌,
  Bool-cases, if◌then◌else◌, ℤ, int_eq, int_eq_eq, ==_iff,
}
use arduino_io_tcloud.Property.Attributes.{CborMapData, is_about, set_each, set_attribute}

int_eq_refl : (a : ℤ) → int_eq a a ≡ true
int_eq_refl (ℤ.pos n) = (==_iff n n).1 refl
int_eq_refl (ℤ.negsuc n) = (==_iff n n).1 refl

int_eq-cases : (a b : ℤ) → ((int_eq a b ≡ true) × (a ≡ b)) ⊎ ((int_eq a b ≡ false) × (a ≢ b))
int_eq-cases a b = elim (Bool-cases (int_eq a b)) [
  | inl e ↦ inl (e, int_eq_eq a b e)
  | inr e ↦ inr (e, λ same. let k = ap (int_eq a) same in let l = int_eq_refl a in cc)
]

module _ {F : Type 0} where
  -- Whether the flag of a light payload is there and says yes.
  abbrev pub IsLight : CborMapData F → Type 0
  IsLight md = (md.light_payload.is_set ≡ true) × (md.light_payload.entry ≡ true)

  -- The attribute that a map names: by its number in a light payload, by its name in another one.
  abbrev pub Names : String → ℕ → CborMapData F → Type 0
  Names name n md =
      (IsLight md × (md.attribute_identifier.entry ≡ ℤ.pos n))
      ⊎ ((¬ IsLight md) × (md.attribute_name.entry ≡ name))

  abbrev pub NoneNames : String → ℕ → List (CborMapData F) → Type 0
  NoneNames name n [] = Unit {0}
  NoneNames name n (md ∷ maps) = (¬ Names name n md) × NoneNames name n maps

  -- `r` comes from the last map that names the attribute, or is the value `v` from before if there
  -- is no such map.
  abbrev pub IsLastOf :
      {A : Type 0} → (CborMapData F → A) → String → ℕ → List (CborMapData F) → A → A → Type 0
  IsLastOf get name n maps v r =
      ((before : List (CborMapData F)) × (md : CborMapData F) × (after : List (CborMapData F))
        × (maps ≡ before ++ md ∷ after)
        × Names name n md
        × NoneNames name n after
        × (r ≡ get md))
      ⊎ (NoneNames name n maps × (r ≡ v))

  IsLight-cases :
      (md : CborMapData F)
      → (IsLight md × ((md.light_payload.is_set && md.light_payload.entry) ≡ true))
        ⊎ ((¬ IsLight md) × ((md.light_payload.is_set && md.light_payload.entry) ≡ false))
  IsLight-cases md = elim (Bool-cases md.light_payload.is_set) [
    | inr e ↦ inr (λ h. cc, ap (λ b. b && md.light_payload.entry) e)
    | inl e ↦ elim (Bool-cases md.light_payload.entry) [
      | inl f ↦ inl ((e, f), rw e f)
      | inr f ↦ inr (λ h. cc, rw e f)
    ]
  ]

  is_about-Names :
      (name : String) (n : ℕ) (md : CborMapData F)
      → ((is_about name n md ≡ true) × Names name n md)
        ⊎ ((is_about name n md ≡ false) × ¬ Names name n md)
  unfolding is_about
  is_about-Names name n md =
      let number = int_eq md.attribute_identifier.entry (ℤ.pos n) in
      let text = str_eq md.attribute_name.entry name in
      elim (IsLight-cases md) [
        | inl (light, e) ↦
            let r = ap (λ b. if b then number else text) e in
            elim (int_eq-cases md.attribute_identifier.entry (ℤ.pos n)) [
              | inl (f, same) ↦ inl (r ∙ f, inl (light, same))
              | inr (f, other) ↦
                  inr
                    (r ∙ f, λ h. elim h [ inl (_, same) ↦ other same | inr (dark, _) ↦ dark light ])
            ]
        | inr (dark, e) ↦
            let r = ap (λ b. if b then number else text) e in
            elim (Bool-cases text) [
              | inl f ↦ inl (r ∙ f, inr (dark, (eq_iff md.attribute_name.entry name).0 f))
              | inr f ↦ inr (
                r ∙ f,
                λ h. elim h [
                  | inl (light, _) ↦ dark light
                  | inr (_, same) ↦ let g = (eq_iff md.attribute_name.entry name).1 same in cc
                ],
              )
            ]
      ]

  set_each-IsLastOf :
      {A : Type 0} (get : CborMapData F → A) (name : String) (n : ℕ) (maps : List (CborMapData F))
      → (v : A) → IsLastOf get name n maps v (set_each (λ md w. get md) name n maps v)
  unfolding set_each
  set_each-IsLastOf get name n [] v = inr (tt, refl)
  set_each-IsLastOf get name n (md ∷ maps) v =
      elim (set_each-IsLastOf get name n maps (if is_about name n md then get md else v)) [
        | inl (before, last, after, e, h, k, r) ↦
            inl (md ∷ before, last, after, ap (λ l. md ∷ l) e, h, k, r)
        | inr (k, r) ↦ elim (is_about-Names name n md) [
          | inl (b, h) ↦ inl ([], md, maps, refl, h, k, r ∙ ap (λ x. if x then get md else v) b)
          | inr (b, h) ↦ inr ((h, k), r ∙ ap (λ x. if x then get md else v) b)
        ]
      ]

  -- An attribute that is set to a part of its map, as all but the Booleans are, gets the value of the
  -- last map that names it, and keeps its value if none does. A map of a light payload names an
  -- attribute by its number, which is counted from 1 unless its name is empty, and any other map by
  -- its name.
  pub set_attribute-last :
      {A : Type 0} (get : CborMapData F → A) (name : String) (n : ℕ) (maps : List (CborMapData F))
      → (v : A)
      → IsLastOf get name
          (if str_eq name "" then n else n + 1)
          maps
          v
          (set_attribute (λ md w. get md) name n maps v).0
  unfolding set_attribute
  set_attribute-last get name n maps v =
      set_each-IsLastOf get name (if str_eq name "" then n else n + 1) maps v
