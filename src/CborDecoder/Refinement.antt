-- ===== src/CborDecoder/Refinement.antt =====
-- The machine of src/cbor/CBORDecoder.cpp does to the container what the message means.
use Prim.Native.String.{String}
use mathlib.Core.Path.{fun_ext}
use arduino_io_tcloud.Common.{
  ℕ, suc, ◌≡◌, refl, sym, ap, ap₂, ◌∙◌, Bool, true, false, Option, some, List, [], ◌∷◌, ℤ,
}
use arduino_io_tcloud.Property.{Methods}
use arduino_io_tcloud.Property.Attributes.{CborMapData}
use arduino_io_tcloud.Container.{PropertyContainer}
use arduino_io_tcloud.CborDecoder.{
  Parser, Floats, Decoding, MapParserState, enter_map, map_key, leave_map, name_of_identifier,
  new_map_data,
}
use arduino_io_tcloud.CborDecoder.Handlers.{handle_enter_map}
use arduino_io_tcloud.CborDecoder.Machine.{step, run, handle_leave_map, next_map, decode}
use arduino_io_tcloud.CborDecoder.Senml.{
  Entry, Message, ShowsMap, ShowsMaps, Shows, put_all, contents, named, runs, update_all, meaning,
  entry_rounds, rounds,
}
use arduino_io_tcloud.CborDecoder.Entries.{run-to, run-step, run-entries}
use arduino_io_tcloud.CborDecoder.Taking.{state, Taken, take}

module _ {V D E I F : Type 0} (p : Parser I F) (m : Methods V D E (CborMapData F)) (d : Floats F)
    (sync : Bool) where
  -- The end of a map, and of the array if no map follows.
  leave :
      (n : ℕ) (c : PropertyContainer V D) (i j i' : I) (md : CborMapData F) (k : String)
      → (maps : List (CborMapData F)) (ended : Bool) (t : Taken m d sync c i j md k maps)
      → p.leave_container i j ≡ some i'
      → p.at_end i' ≡ ended
      → step p m d sync leave_map (state m d sync c i j md k maps)
        ≡ next_map p m d sync ended (state m d sync t.new_container i' j md t.new_name t.new_maps)
  unfolding step handle_leave_map
  leave n c i j i' md k maps ended t l e = rw l (
      ap₂ (λ b (s : Decoding V D I F). next_map p m d sync b (record s { map_iter = i' })) e
        t.is_taken)

  enter :
      (c : PropertyContainer V D) (i v : I) (md : CborMapData F) (k : String)
      → (maps : List (CborMapData F)) (es : List (Entry F)) (i' : I) (h : ShowsMap p i es i')
      → step p m d sync enter_map (state m d sync c i v md k maps)
        ≡ (map_key, state m d sync c i h.entries md k maps)
  unfolding step handle_enter_map
  enter c i v md k maps es i' h = rw (h.is_map, h.enters)

  abbrev read : PropertyContainer V D → List (Entry F) → CborMapData F → CborMapData F
  read c es md = put_all d (λ x. name_of_identifier x c) es md

  abbrev after : MapParserState × Decoding V D I F → ℕ → Option (PropertyContainer V D)
  after r n = run p m d sync n r.0 r.1

  -- A map, from its start to the start of the next one or to the end.
  run-map :
      (n : ℕ) (c : PropertyContainer V D) (i v i' : I) (md : CborMapData F) (k : String)
      → (maps : List (CborMapData F)) (es : List (Entry F)) (ended : Bool) (h : ShowsMap p i es i')
      → p.at_end i' ≡ ended
      → (j : I) × (t : Taken m d sync c i j (read c es md) k maps) × (run p m d sync
            (suc (entry_rounds es (suc n)))
            enter_map
            (state m d sync c i v md k maps)
          ≡ after
              (next_map p m d sync ended
                (state m d sync t.new_container i' j (read c es md) t.new_name t.new_maps))
              n)
  run-map n c i v i' md k maps es ended h e =
      let (j, l, r) =
        run-entries p m d sync (suc n) i i' h.entries es (state m d sync c i v md k maps) h.shows in
      let t = take m d sync c i j (read c es md) k maps in
      (
        j,
        t,
        run-to p m d sync (entry_rounds es (suc n)) enter_map map_key _ _
              (enter c i v md k maps es i' h)
            ∙ r
            ∙ run-step p m d sync n leave_map _
            ∙ ap (λ x. after x n) (leave n c i j i' (read c es md) k maps ended t l e),
      )

  abbrev to_come :
      PropertyContainer V D
      → String
      → List (CborMapData F)
      → List (CborMapData F)
      → PropertyContainer V D
  to_come c k maps mds = update_all d m sync (runs k maps (named mds)) c

  run-maps :
      (names : ℤ → String) (n : ℕ) (c : PropertyContainer V D) (i v : I) (md : CborMapData F)
      → (k : String) (maps : List (CborMapData F)) (es : List (Entry F)) (ms : Message F)
      → ((x : ℤ) → name_of_identifier x c ≡ names x)
      → ShowsMaps p i es ms
      → run p m d sync (rounds (es ∷ ms) n) enter_map (state m d sync c i v md k maps)
        ≡ some (to_come c k maps (contents d names md (es ∷ ms)))
  unfolding contents run runs named update_all
  run-maps names n c i v md k maps es [] h (i', shown, e) =
      let (j, t, r) = run-map n c i v i' md k maps es true shown e in
      r
      ∙ ap some (sym (t.same_updates []))
      ∙ ap (λ f. some (to_come c k maps (put_all d f es md ∷ []))) (fun_ext h)
  run-maps names n c i v md k maps es (es' ∷ ms) h (i', shown, e, rest) =
      let (j, t, r) = run-map (rounds (es' ∷ ms) n) c i v i' md k maps es false shown e in
      r
      ∙ run-maps names n t.new_container i' j (read c es md) t.new_name t.new_maps es' ms
          (λ x. t.same_names x ∙ h x) rest
      ∙ ap some (sym (t.same_updates (contents d names (read c es md) (es' ∷ ms))))
      ∙ ap
          (λ f. some (
            to_come c k maps (put_all d f es md ∷ contents d names (put_all d f es md) (es' ∷ ms))))
          (fun_ext h)

  -- A payload that is an array of maps, each of entries with a value of the right type, is decoded
  -- within two rounds for each entry and three for each map, and does to the container what the
  -- message means: one update for each run of maps about one property, in their order.
  pub decode-meaning :
      (n : ℕ) (memory : CborMapData F) (payload : List ℕ) (es : List (Entry F)) (ms : Message F)
      → (c : PropertyContainer V D) → Shows p payload es ms
      → decode p m d sync (rounds (es ∷ ms) n) memory payload c
        ≡ some (meaning d m sync (new_map_data memory) (es ∷ ms) c)
  unfolding decode meaning
  decode-meaning n memory payload es ms c h =
      rw (h.parses, decode, h.is_array, h.enters)
        (run-maps (λ x. name_of_identifier x c) n c h.first h.first (new_map_data memory) "" [] es
          ms (λ x. refl) h.shows)
