-- ===== src/CborEncoder/Passes.antt =====
-- How the state machine of src/cbor/CBOREncoder.cpp comes to an end: each pass that is repeated
-- takes fewer properties than the one before.
use mathlib.Core.Path.{subst}
use arduino_io_tcloud.Common.{
  ℕ, zero, suc, ◌+◌, ◌≤◌, ◌<◌, ◌≡◌, refl, sym, inl, inr, Bool, true, false, ◌&&◌, List, [], ◌∷◌,
  length, drop, leb, Bool-cases, if_both, arith,
}
use arduino_io_tcloud.Property.{
  Property, Methods, CborError, no_error, out_of_memory, split_items, other_error, append,
  should_be_updated, is_readable_by_cloud,
}
use arduino_io_tcloud.Container.{PropertyContainer}
use arduino_io_tcloud.CborEncoder.{Tally, count, visit, stops, proceed, after_visit, scan}

-- A number of encoded properties that fits the limit of a pass: below it where the pass has failed.
abbrev pub Fits : CborError → ℕ → ℕ → Type 0
Fits no_error n limit = n ≤ limit
Fits _ n limit = n < limit

pub below-Fits : (err : CborError) (n limit : ℕ) → n < limit → Fits err n limit
below-Fits no_error n limit h = omega arith
below-Fits out_of_memory n limit h = h
below-Fits split_items n limit h = h
below-Fits (other_error x) n limit h = h

pub length-drop_le : {A : Type 0} (n : ℕ) (xs : List A) → length (drop n xs) ≤ length xs
length-drop_le zero xs = omega arith
length-drop_le (suc n) [] = omega arith
length-drop_le (suc n) (x ∷ xs) = omega (arith, length-drop_le n xs)

-- What one property does to the count: it adds at most one, and nothing if it fails.
abbrev Counted : CborError → ℕ → ℕ → Type 0
Counted no_error n n' = n' ≤ suc n
Counted _ n n' = n' ≡ n

module _ {E : Type 0} (k : Tally E) where
  count-Counted :
      {V D : Type 0} (err : CborError) (p : Property V D) (e : E)
      → Counted
          (count (err, p, e) k).0
          k.encoded_property_count
          (count (err, p, e) k).2.encoded_property_count
  count-Counted no_error p e = omega arith
  count-Counted out_of_memory p e = refl
  count-Counted split_items p e = refl
  count-Counted (other_error n) p e = refl

module _ {V D E : Type 0} where
  after_visit-Fits :
      (limit n : ℕ) (c : PropertyContainer V D)
      → (next : Tally E → CborError × PropertyContainer V D × Tally E)
      → (r : CborError × Property V D × Tally E) → n < limit
      → Counted r.0 n r.2.encoded_property_count
      → ((k : Tally E)
          → k.encoded_property_count < limit
          → Fits (next k).0 (next k).2.encoded_property_count limit)
      → Fits
          (after_visit true limit c next r).0
          (after_visit true limit c next r).2.encoded_property_count
          limit
  after_visit-Fits limit n c next (no_error, p, k) h v g =
      let P = λ (b : Bool).
        let r = proceed b c next (no_error, p, k) in Fits r.0 r.2.encoded_property_count limit in
      elim (Bool-cases (leb limit k.encoded_property_count)) [
        | inl e ↦
            let stop : stops true limit no_error k ≡ true = ground arith in
            subst P (sym stop) (omega arith)
        | inr e ↦
            let more : stops true limit no_error k ≡ false = ground arith in
            subst P (sym more) (g k (ground arith))
      ]
  after_visit-Fits limit n c next (out_of_memory, p, k) h v g = ground arith
  after_visit-Fits limit n c next (split_items, p, k) h v g = ground arith
  after_visit-Fits limit n c next (other_error x, p, k) h v g = ground arith

  after_visit_all :
      (limit n : ℕ) (c : PropertyContainer V D)
      → (next : Tally E → CborError × PropertyContainer V D × Tally E)
      → (r : CborError × Property V D × Tally E) → Counted r.0 n r.2.encoded_property_count
      → ((k : Tally E) → (next k).2.encoded_property_count ≤ k.encoded_property_count + length c)
      → (after_visit false limit c next r).2.encoded_property_count ≤ n + suc (length c)
  after_visit_all limit n c next (no_error, p, k) v g =
      let more : stops false limit no_error k ≡ false = ground arith in
      subst (λ b. (proceed b c next (no_error, p, k)).2.encoded_property_count ≤ n + suc (length c))
        (sym more) (omega (arith, g k))
  after_visit_all limit n c next (out_of_memory, p, k) v g = ground arith
  after_visit_all limit n c next (split_items, p, k) v g = ground arith
  after_visit_all limit n c next (other_error x, p, k) v g = ground arith

module _ {V D E M : Type 0} (m : Methods V D E M) (light : Bool) where
  visit-Counted :
      (now : ℕ) (p : Property V D) (k : Tally E)
      → Counted
          (visit m light now p k).0
          k.encoded_property_count
          (visit m light now p k).2.encoded_property_count
  unfolding visit
  visit-Counted now p k =
      let P = λ (r : CborError × Property V D × Tally E).
        Counted r.0 k.encoded_property_count r.2.encoded_property_count in
      let r = append m now light p k.array_encoder in
      if_both P (should_be_updated m now p && is_readable_by_cloud p) (count r k)
        (no_error, p, record k { checked_property_count = k.checked_property_count + 1 })
        (count-Counted k r.0 r.1 r.2) (omega arith)

  -- A pass with a limit that starts below it encodes no more properties than the limit, and fewer
  -- if it fails.
  pub scan-Fits :
      (now limit : ℕ) (c : PropertyContainer V D) (k : Tally E)
      → k.encoded_property_count < limit
      → Fits
          (scan m light now true limit c k).0
          (scan m light now true limit c k).2.encoded_property_count
          limit
  unfolding scan
  scan-Fits now limit [] k h = omega arith
  scan-Fits now limit (p ∷ c) k h =
      after_visit-Fits limit k.encoded_property_count c (scan m light now true limit c)
        (visit m light now p k) h (visit-Counted now p k) (scan-Fits now limit c)

  -- A pass without a limit takes each property once at most.
  pub scan_all :
      (now limit : ℕ) (c : PropertyContainer V D) (k : Tally E)
      → (scan m light now false limit c k).2.encoded_property_count
        ≤ k.encoded_property_count + length c
  unfolding scan
  scan_all now limit [] k = omega arith
  scan_all now limit (p ∷ c) k =
      after_visit_all limit k.encoded_property_count c (scan m light now false limit c)
        (visit m light now p k) (visit-Counted now p k) (scan_all now limit c)
