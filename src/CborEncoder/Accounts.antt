-- ===== src/CborEncoder/Accounts.antt =====
-- What a call of `encode` in src/cbor/CBOREncoder.cpp leaves: the properties that were completed,
-- those that will be sent again, and where the next message begins.
use mathlib.Core.Path.{subst}
use arduino_io_tcloud.Common.{
  ℕ, zero, suc, ◌+◌, ◌-◌, ◌*◌, ◌≡◌, refl, ap, Bool, Option, none, some, ◌++◌, length, take, drop,
  ltb, leb, if◌then◌else◌, if_both, arith,
}
use arduino_io_tcloud.Property.{
  Methods, CborError, no_error, out_of_memory, split_items, other_error,
}
use arduino_io_tcloud.Container.{PropertyContainer}
use arduino_io_tcloud.CborEncoder.{
  EncoderState, init_property_encoder, open_cbor_container, try_append, handle_out_of_memory,
  skip_property, trim_append, close_cbor_container, trim_close, finish_append, send_message, error,
  Tinycbor, PropertyContainerEncoder, is_error, scan, after_scan, limit_to, complete,
  handle_try_append, handle_init_property_encoder, handle_open_cbor_container,
  handle_out_of_memory_state, handle_skip_property, handle_trim_append, handle_close_cbor_container,
  handle_trim_close, handle_finish_append,
}
use arduino_io_tcloud.CborEncoder.Loop.{step, run_loop, finish, encode}
use arduino_io_tcloud.CborEncoder.Rounds.{run_loop-returns}
use arduino_io_tcloud.CborEncoder.Completed.{
  AllTouched, AllTouched-refl, AllTouched-trans, AllTouched-splice, scan-Touched,
}

module _ {V D E : Type 0} where
  -- `s'` completes the message that `s` began: the properties from its index on, as many as were
  -- checked, are completed, and the next message begins after them.
  pub record Sent (s s' : PropertyContainerEncoder V D E) : Type 0 where
    pub before : PropertyContainer V D
    pub touched : AllTouched s.property_container before
    pub completed :
        s'.property_container
        ≡ take s.current_property_index before
          ++ complete s'.checked_property_count (drop s.current_property_index before)
    pub next_index : s'.current_property_index ≡ (
        if leb (length before) (s.current_property_index + s'.checked_property_count)
        then 0
        else s.current_property_index + s'.checked_property_count)

  -- What holds when the loop is in a state.
  abbrev Accounts :
      PropertyContainerEncoder V D E → EncoderState → PropertyContainerEncoder V D E → Type 0
  Accounts s send_message s' = Sent s s'
  Accounts s error s' = AllTouched s.property_container s'.property_container
  Accounts s _ s' =
      AllTouched s.property_container s'.property_container
      × (s'.current_property_index ≡ s.current_property_index)

  -- What `encode` promises: a message that is sent, or, with an error, that every property is as it
  -- was or still asks to be sent.
  abbrev pub Outcome :
      PropertyContainerEncoder V D E → CborError × ℕ × PropertyContainerEncoder V D E → Type 0
  Outcome s (no_error, bytes, s') = Sent s s'
  Outcome s (_, bytes, s') = AllTouched s.property_container s'.property_container

module _ {V D E M : Type 0} (m : Methods V D E M) (t : Tinycbor E) (light : Bool) where
  module _ (s : PropertyContainerEncoder V D E) where
    after_scan-Accounts :
        (err : CborError) (s' : PropertyContainerEncoder V D E)
        → AllTouched s.property_container s'.property_container
        → s'.current_property_index ≡ s.current_property_index
        → Accounts s (after_scan err) s'
    after_scan-Accounts no_error s' h e = (h, e)
    after_scan-Accounts out_of_memory s' h e = (h, e)
    after_scan-Accounts split_items s' h e = (h, e)
    after_scan-Accounts (other_error n) s' h e = h

    step-Accounts :
        (size now : ℕ) (st : EncoderState) (s' : PropertyContainerEncoder V D E)
        → Accounts s st s'
        → let x = step m t light size now st s' in Accounts s x.0 x.1
    unfolding step handle_init_property_encoder handle_open_cbor_container handle_try_append
        handle_out_of_memory_state handle_skip_property handle_trim_append
        handle_close_cbor_container handle_trim_close handle_finish_append
    step-Accounts size now init_property_encoder s' h = h
    step-Accounts size now open_cbor_container s' h = h
    step-Accounts size now try_append s' h =
        let i = s'.current_property_index in
        let c = s'.property_container in
        let (err, d, k) =
          scan m light now s'.property_limit_active s'.encoded_property_limit (drop i c) s'.tally in
        let seen =
          scan-Touched m light now s'.encoded_property_limit s'.property_limit_active (drop i c)
            s'.tally in
        after_scan-Accounts err (record s' { property_container = take i c ++ d; tally = k })
          (AllTouched-trans s.property_container c (take i c ++ d) h.0
            (AllTouched-splice i c d seen))
          h.1
    step-Accounts size now handle_out_of_memory s' h =
        if_both (λ st. Accounts s st s') (ltb 0 s'.encoded_property_count) close_cbor_container
          skip_property h h
    step-Accounts size now skip_property s' h = h.0
    step-Accounts size now trim_append s' h =
        if_both (λ st. Accounts s st (limit_to s'.encoded_property_count s').1)
          (ltb 0 s'.encoded_property_count) open_cbor_container error h h.0
    step-Accounts size now close_cbor_container s' h =
        let (err, e) = t.encoder_close_container s'.encoder s'.array_encoder in
        if_both (λ st. Accounts s st (record s' { encoder = e })) (is_error err) trim_close
          finish_append h h
    step-Accounts size now trim_close s' h =
        if_both (λ st. Accounts s st (limit_to (s'.encoded_property_count - 1) s').1)
          (ltb 0 (s'.encoded_property_count - 1)) open_cbor_container error h h.0
    step-Accounts size now finish_append s' h =
        let k = s'.checked_property_count in
        let c = s'.property_container in
        record {
          before = c;
          touched = h.0;
          completed = ap (λ i. take i c ++ complete k (drop i c)) h.1;
          next_index = ap (λ i. if leb (length c) (i + k) then 0 else i + k) h.1;
        }
    step-Accounts size now send_message s' h = h
    step-Accounts size now error s' h = h

    abbrev Ending : ℕ → Option (EncoderState × PropertyContainerEncoder V D E) → Type 0
    Ending bytes none = Unit {0}
    Ending bytes (some x) = Outcome s (finish t bytes x)

    run_loop-Ending :
        (f size bytes : ℕ) (clock : ℕ → ℕ) (st : EncoderState) (s' : PropertyContainerEncoder V D E)
        → Accounts s st s'
        → Ending bytes (run_loop m t light f size clock (st, s'))
    unfolding run_loop
    run_loop-Ending zero size bytes clock st s' h = tt
    run_loop-Ending (suc f) size bytes clock send_message s' h = h
    run_loop-Ending (suc f) size bytes clock error s' h = h
    run_loop-Ending (suc f) size bytes clock init_property_encoder s' h =
        run_loop-Ending f size bytes clock _ _
          (step-Accounts size (clock f) init_property_encoder s' h)
    run_loop-Ending (suc f) size bytes clock open_cbor_container s' h =
        run_loop-Ending f size bytes clock _ _
          (step-Accounts size (clock f) open_cbor_container s' h)
    run_loop-Ending (suc f) size bytes clock try_append s' h =
        run_loop-Ending f size bytes clock _ _ (step-Accounts size (clock f) try_append s' h)
    run_loop-Ending (suc f) size bytes clock handle_out_of_memory s' h =
        run_loop-Ending f size bytes clock _ _
          (step-Accounts size (clock f) handle_out_of_memory s' h)
    run_loop-Ending (suc f) size bytes clock skip_property s' h =
        run_loop-Ending f size bytes clock _ _ (step-Accounts size (clock f) skip_property s' h)
    run_loop-Ending (suc f) size bytes clock trim_append s' h =
        run_loop-Ending f size bytes clock _ _ (step-Accounts size (clock f) trim_append s' h)
    run_loop-Ending (suc f) size bytes clock close_cbor_container s' h =
        run_loop-Ending f size bytes clock _ _
          (step-Accounts size (clock f) close_cbor_container s' h)
    run_loop-Ending (suc f) size bytes clock trim_close s' h =
        run_loop-Ending f size bytes clock _ _ (step-Accounts size (clock f) trim_close s' h)
    run_loop-Ending (suc f) size bytes clock finish_append s' h =
        run_loop-Ending f size bytes clock _ _ (step-Accounts size (clock f) finish_append s' h)

    -- `encode` returns, with six rounds for each property and thirteen more, and keeps its promise.
    -- If it succeeds, the properties from the index on, as many as the last pass has checked, are
    -- completed, and the next message begins after them, or at the first one. All others are as
    -- they were or still ask to be sent, and so is every property after an error.
    pub encode-Outcome :
        (size bytes : ℕ) (clock : ℕ → ℕ)
        → (r : CborError × ℕ × PropertyContainerEncoder V D E) × (encode m t light
              (6 * length s.property_container + 13)
              size
              clock
              bytes
              s
            ≡ some r)
          × Outcome s r
    unfolding encode
    encode-Outcome size bytes clock =
        let f = 6 * length s.property_container + 13 in
        let (x, e) = run_loop-returns m t light f size clock s (omega arith) in
        (
          finish t bytes x,
          ap
              (λ (o : Option (EncoderState × PropertyContainerEncoder V D E)). elim o [
                | none ↦ none
                | some y ↦ some (finish t bytes y)
              ])
              e,
          subst (Ending bytes) e (
              run_loop-Ending f size bytes clock init_property_encoder s
                (AllTouched-refl s.property_container, refl)),
        )
