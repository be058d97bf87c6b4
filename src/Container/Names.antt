-- ===== src/Container/Names.antt =====
-- Names and identifiers in the container of src/property/PropertyContainer.cpp.
use Prim.Native.String.{String}
use text.Mathlib.Text.{◌==◌ as str_eq}
use text.Mathlib.TextEquality.{eq_iff}
use mathlib.Core.Option
use mathlib.Core.Path.{subst}
use text.Mathlib.TextPositions.{eq_refl}
use arduino_io_tcloud.Common.{
  ℕ, zero, suc, ◌+◌, ◌*◌, ◌%◌, ◌<◌, ◌≡◌, refl, sym, ap, ◌∙◌, inl, inr, true, false, ◌==◌, ==_iff,
  Option, none, some, [], ◌∷◌, ◌++◌, length, ltb, Option-cases, Bool-cases, or_else, if◌then◌else◌,
  arith,
}
use arduino_io_tcloud.Property.{Property, Permission, init, set_identifier}
use arduino_io_tcloud.Property.Attributes.{complete_identifier}
use arduino_io_tcloud.Container.{
  PropertyContainer, get_property, get_property_by_identifier, add_property, chosen_identifier,
  add_property_to_container, get_property_name_by_identifier, name_or_empty,
}

low_byte :
    (a n : ℕ) → n < 256 → (if ltb 255 (a * 256 + n) then (a * 256 + n) % 256 else a * 256 + n) ≡ n
low_byte a n h = ground arith

module _ {V D : Type 0} where
  -- No two properties have one name.
  abbrev pub HasUniqueNames : PropertyContainer V D → Type 0
  HasUniqueNames [] = Unit {0}
  HasUniqueNames (p ∷ c) = (get_property p.name c ≡ none) × HasUniqueNames c

  -- The identifiers count up from `n`.
  abbrev pub IsNumbered : ℕ → PropertyContainer V D → Type 0
  IsNumbered n [] = Unit {0}
  IsNumbered n (p ∷ c) = (p.identifier ≡ n) × IsNumbered (suc n) c

  get_property-append :
      (name : String) (q : Property V D) (c : PropertyContainer V D)
      → get_property name (c ++ q ∷ [])
        ≡ or_else (get_property name c) (if str_eq q.name name then some q else none)
  unfolding get_property
  get_property-append name q [] = refl
  get_property-append name q (p ∷ c) = elim (Bool-cases (str_eq p.name name)) [
    | inl e ↦ rw (e, get_property)
    | inr e ↦ rw (e, get_property) (get_property-append name q c)
  ]

  differs :
      (p q : Property V D) (c : PropertyContainer V D)
      → get_property q.name (p ∷ c) ≡ none
      → (str_eq q.name p.name ≡ false) × (get_property q.name c ≡ none)
  unfolding get_property
  differs p q c h = ground (arith, eq_iff q.name p.name, eq_iff p.name q.name)

  append-HasUniqueNames :
      (q : Property V D) (c : PropertyContainer V D)
      → HasUniqueNames c
      → get_property q.name c ≡ none
      → HasUniqueNames (c ++ q ∷ [])
  unfolding get_property
  append-HasUniqueNames q [] u h = (refl, tt)
  append-HasUniqueNames q (p ∷ c) u h =
      let d = differs p q c h in
      (
        get_property-append p.name q c
            ∙ ap (λ o. or_else o (if str_eq q.name p.name then some q else none)) u.0
            ∙ ap (λ b. if b then some q else none) d.0,
        append-HasUniqueNames q c u.1 d.1,
      )

  append-IsNumbered :
      (n : ℕ) (q : Property V D) (c : PropertyContainer V D)
      → IsNumbered n c
      → q.identifier ≡ n + length c
      → IsNumbered n (c ++ q ∷ [])
  append-IsNumbered n q [] u h = (omega arith, tt)
  append-IsNumbered n q (p ∷ c) u h = (u.0, append-IsNumbered (suc n) q c u.1 (omega arith))

  module _ (p : Property V D) (name : String) (permission : Permission)
      (func : Option (ℕ → ℕ)) where
    new_property : Option ℕ → PropertyContainer V D → Property V D
    new_property identifier c =
        set_identifier (chosen_identifier identifier c) (init name permission func p)

    add-new :
        (identifier : Option ℕ) (c : PropertyContainer V D)
        → get_property name c ≡ none
        → add_property_to_container p name permission identifier func c
          ≡ c ++ new_property identifier c ∷ []
    unfolding add_property_to_container add_property new_property
    add-new identifier c e = rw (e, add_property_to_container)

    add-known :
        (identifier : Option ℕ) (c : PropertyContainer V D) {q : Property V D}
        → get_property name c ≡ some q
        → add_property_to_container p name permission identifier func c ≡ c
    unfolding add_property_to_container
    add-known identifier c e = rw (e, add_property_to_container)

    -- After `addPropertyToContainer` the name is found: the property that had it before, or the new
    -- one under the identifier that was chosen for it.
    pub get_property-add :
        (identifier : Option ℕ) (c : PropertyContainer V D)
        → get_property name (add_property_to_container p name permission identifier func c)
          ≡ some (elim (get_property name c) [
            | some q ↦ q
            | none ↦ set_identifier (chosen_identifier identifier c) (init name permission func p)
          ])
    unfolding new_property init set_identifier
    get_property-add identifier c = elim (Option-cases (get_property name c)) [
      | inl e ↦
          ap (get_property name) (add-new identifier c e)
          ∙ get_property-append name (new_property identifier c) c
          ∙ rw (e, eq_refl name)
      | inr (q, e) ↦ ap (get_property name) (add-known identifier c e) ∙ rw e
    ]

    -- It keeps the names unique, whatever identifier is given.
    pub add-HasUniqueNames :
        (identifier : Option ℕ) (c : PropertyContainer V D)
        → HasUniqueNames c
        → HasUniqueNames (add_property_to_container p name permission identifier func c)
    unfolding new_property init set_identifier
    add-HasUniqueNames identifier c u = elim (Option-cases (get_property name c)) [
      | inl e ↦
          rw (add-new identifier c e) (append-HasUniqueNames (new_property identifier c) c u e)
      | inr (q, e) ↦ rw (add-known identifier c e) u
    ]

    -- Without explicit identifiers the properties are numbered 1, 2, ... in the order of their
    -- declaration.
    pub add-IsNumbered :
        (c : PropertyContainer V D)
        → IsNumbered 1 c
        → IsNumbered 1 (add_property_to_container p name permission none func c)
    unfolding new_property set_identifier
    add-IsNumbered c u = elim (Option-cases (get_property name c)) [
      | inl e ↦ rw (add-new none c e) (append-IsNumbered 1 (new_property none c) c u (omega arith))
      | inr (q, e) ↦ rw (add-known none c e) u
    ]

  -- The i-th property, counted from 0.
  abbrev pub nth : ℕ → PropertyContainer V D → Option (Property V D)
  nth i [] = none
  nth zero (p ∷ c) = some p
  nth (suc i) (p ∷ c) = nth i c

  -- No two properties have one identifier, whether it was given or counted.
  abbrev pub HasUniqueIdentifiers : PropertyContainer V D → Type 0
  HasUniqueIdentifiers [] = Unit {0}
  HasUniqueIdentifiers (p ∷ c) =
      (get_property_by_identifier p.identifier c ≡ none) × HasUniqueIdentifiers c

  below-IsNumbered :
      (k n : ℕ) (c : PropertyContainer V D)
      → IsNumbered n c
      → k < n
      → get_property_by_identifier k c ≡ none
  unfolding get_property_by_identifier
  below-IsNumbered k n [] u h = refl
  below-IsNumbered k n (p ∷ c) u h =
      let other : (p.identifier == k) ≡ false = ground (arith, u.0) in
      ap (λ b. if b then some p else get_property_by_identifier k c) other
      ∙ below-IsNumbered k (suc n) c u.1 (omega arith)

  -- Identifiers that were counted are unique.
  pub IsNumbered-HasUniqueIdentifiers :
      (n : ℕ) (c : PropertyContainer V D) → IsNumbered n c → HasUniqueIdentifiers c
  IsNumbered-HasUniqueIdentifiers n [] u = tt
  IsNumbered-HasUniqueIdentifiers n (p ∷ c) u = (
    below-IsNumbered p.identifier (suc n) c u.1 (omega (arith, u.0)),
    IsNumbered-HasUniqueIdentifiers (suc n) c u.1,
  )

  -- A property that another one hides from its own identifier would be found first.
  found-later :
      (p q : Property V D) (c : PropertyContainer V D)
      → get_property_by_identifier p.identifier c ≡ none
      → get_property_by_identifier q.identifier c ≡ some q
      → get_property_by_identifier q.identifier (p ∷ c) ≡ some q
  unfolding get_property_by_identifier
  found-later p q c u e = elim (Bool-cases (p.identifier == q.identifier)) [
    | inr other ↦
        ap (λ b. if b then some p else get_property_by_identifier q.identifier c) other ∙ e
    | inl same ↦
        let k = (==_iff p.identifier q.identifier).0 same in
        let clash : none ≡ some q = sym u ∙ ap (λ n. get_property_by_identifier n c) k ∙ e in
        absurd (Option.none-ne-some q clash)
  ]

  get_property_by_identifier-nth :
      (i : ℕ) (c : PropertyContainer V D) {p : Property V D}
      → HasUniqueIdentifiers c
      → nth i c ≡ some p
      → get_property_by_identifier p.identifier c ≡ some p
  unfolding get_property_by_identifier
  get_property_by_identifier-nth i [] u e = cc
  get_property_by_identifier-nth zero (q ∷ c) {p} u e =
      let same : q ≡ p = Option.some_inj.0 e in
      let found : (q.identifier == q.identifier) ≡ true = (==_iff _ _).1 refl in
      subst (λ x. get_property_by_identifier x.identifier (q ∷ c) ≡ some x) same
        (ap (λ b. if b then some q else get_property_by_identifier q.identifier c) found)
  get_property_by_identifier-nth (suc i) (q ∷ c) {p} u e =
      found-later q p c u.0 (get_property_by_identifier-nth i c u.1 e)

  -- In a container without two equal identifiers, counted or given in the declarations, the number
  -- that `appendAttribute` writes in a light payload for any attribute of the i-th property (counted
  -- from 0) leads back to that property's name, if its identifier is below 256.
  pub get_property_name_by_identifier-complete_identifier :
      (a i : ℕ) (c : PropertyContainer V D) {p : Property V D}
      → HasUniqueIdentifiers c
      → nth i c ≡ some p
      → p.identifier < 256
      → get_property_name_by_identifier (complete_identifier p a) c ≡ p.name
  unfolding get_property_name_by_identifier
  get_property_name_by_identifier-complete_identifier a i c {p} u e h =
      let find = λ (n : ℕ). name_or_empty (get_property_by_identifier n c) in
      ap find (low_byte a p.identifier h)
      ∙ ap name_or_empty (get_property_by_identifier-nth i c u e)
