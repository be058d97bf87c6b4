-- ===== src/CborEncoder/Completed.antt =====
-- What src/cbor/CBOREncoder.cpp does to the properties: none that is part of an unfinished message
-- is forgotten.
use mathlib.Core.Path.{subst}
use arduino_io_tcloud.Common.{
  ℕ, zero, suc, ◌+◌, ◌≡◌, refl, sym, ap, ◌∙◌, ◌⊎◌, inl, inr, Bool, true, false, ◌&&◌, [], ◌∷◌, ◌++◌,
  take, drop, if_both,
}
use arduino_io_tcloud.Property.{
  Property, Methods, CborError, no_error, out_of_memory, split_items, other_error, append,
  after_append, should_be_updated, is_readable_by_cloud,
}
use arduino_io_tcloud.Container.{PropertyContainer}
use arduino_io_tcloud.CborEncoder.{Tally, count, visit, stops, proceed, scan}

module _ {V D : Type 0} where
  -- A property as it was, apart from the form of its payload, or one that waits for its message to
  -- be completed.
  abbrev pub Touched : Property V D → Property V D → Type 0
  Touched p q =
      (q.name ≡ p.name)
      × ((q ≡ record p { light_payload = q.light_payload })
          ⊎ (q.has_been_appended_but_not_sended ≡ true))

  abbrev pub AllTouched : PropertyContainer V D → PropertyContainer V D → Type 0
  AllTouched [] [] = Unit {0}
  AllTouched (p ∷ c) (q ∷ d) = Touched p q × AllTouched c d
  AllTouched _ _ = ⊥

  Touched-refl : (p : Property V D) → Touched p p
  Touched-refl p = (refl, inl refl)

  Touched-trans : (p q r : Property V D) → Touched p q → Touched q r → Touched p r
  Touched-trans p q r (n, inl e) (n', inl e') =
      (n' ∙ n, inl (e' ∙ ap (λ (x : Property V D). record x { light_payload = r.light_payload }) e))
  Touched-trans p q r (n, inr e) (n', inl e') =
      (n' ∙ n, inr (ap (λ (x : Property V D). x.has_been_appended_but_not_sended) e' ∙ e))
  Touched-trans p q r (n, h) (n', inr e') = (n' ∙ n, inr e')

  pub AllTouched-refl : (c : PropertyContainer V D) → AllTouched c c
  AllTouched-refl [] = tt
  AllTouched-refl (p ∷ c) = (Touched-refl p, AllTouched-refl c)

  pub AllTouched-trans :
      (c d e : PropertyContainer V D) → AllTouched c d → AllTouched d e → AllTouched c e
  AllTouched-trans [] [] e h k = k
  AllTouched-trans (p ∷ c) (q ∷ d) (r ∷ e) h k =
      (Touched-trans p q r h.0 k.0, AllTouched-trans c d e h.1 k.1)
  AllTouched-trans (p ∷ c) (q ∷ d) [] h k = absurd k
  AllTouched-trans (p ∷ c) [] e h k = absurd h
  AllTouched-trans [] (q ∷ d) e h k = absurd h

  pub AllTouched-splice :
      (i : ℕ) (c d : PropertyContainer V D) → AllTouched (drop i c) d → AllTouched c (take i c ++ d)
  AllTouched-splice zero c d h = h
  AllTouched-splice (suc i) [] d h = h
  AllTouched-splice (suc i) (p ∷ c) d h = (Touched-refl p, AllTouched-splice i c d h)

module _ {V D E : Type 0} where
  count-property :
      (err : CborError) (p : Property V D) (e : E) (k : Tally E) → (count (err, p, e) k).1 ≡ p
  count-property no_error p e k = refl
  count-property out_of_memory p e k = refl
  count-property split_items p e k = refl
  count-property (other_error n) p e k = refl

  proceed-Touched :
      (b : Bool) (p : Property V D) (c : PropertyContainer V D)
      → (next : Tally E → CborError × PropertyContainer V D × Tally E)
      → (r : CborError × Property V D × Tally E) → Touched p r.1
      → ((k : Tally E) → AllTouched c (next k).1)
      → AllTouched (p ∷ c) (proceed b c next r).1
  proceed-Touched true p c next r h g = (h, AllTouched-refl c)
  proceed-Touched false p c next r h g = (h, g r.2)

module _ {V D E M : Type 0} (m : Methods V D E M) (light : Bool) where
  after_append-Touched :
      (now : ℕ) (p : Property V D) (err : CborError)
      → Touched p (after_append m now (record p { light_payload = light }) err)
  after_append-Touched now p no_error = (refl, inr refl)
  after_append-Touched now p out_of_memory = (refl, inl refl)
  after_append-Touched now p split_items = (refl, inl refl)
  after_append-Touched now p (other_error n) = (refl, inl refl)

  visit-Touched : (now : ℕ) (p : Property V D) (k : Tally E) → Touched p (visit m light now p k).1
  unfolding visit append
  visit-Touched now p k =
      let (err, q, e) = append m now light p k.array_encoder in
      if_both (λ (r : CborError × Property V D × Tally E). Touched p r.1)
        (should_be_updated m now p && is_readable_by_cloud p) (count (err, q, e) k)
        (no_error, p, record k { checked_property_count = k.checked_property_count + 1 })
        (subst (λ x. Touched p x) (sym (count-property err q e k)) (after_append-Touched now p err))
        (Touched-refl p)

  pub scan-Touched :
      (now limit : ℕ) (active : Bool) (c : PropertyContainer V D) (k : Tally E)
      → AllTouched c (scan m light now active limit c k).1
  unfolding scan
  scan-Touched now limit active [] k = tt
  scan-Touched now limit active (p ∷ c) k =
      let r = visit m light now p k in
      proceed-Touched (stops active limit r.0 r.2) p c (scan m light now active limit c) r
        (visit-Touched now p k) (scan-Touched now limit active c)
