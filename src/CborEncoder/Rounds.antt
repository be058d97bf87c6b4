-- ===== src/CborEncoder/Rounds.antt =====
-- How the loop of src/cbor/CBOREncoder.cpp comes to an end: each pass that is repeated takes fewer
-- properties than the one before.
use arduino_io_tcloud.Common.{
  ℕ, zero, suc, ◌+◌, ◌-◌, ◌*◌, ◌≤◌, ◌<◌, ◌≡◌, refl, inl, inr, Bool, true, false, Option, some, ◌++◌,
  length, take, drop, ltb, if◌then◌else◌, Bool-cases, if_both, arith,
}
use arduino_io_tcloud.Property.{
  Methods, CborError, no_error, out_of_memory, split_items, other_error,
}
use arduino_io_tcloud.Container.{PropertyContainer}
use arduino_io_tcloud.CborEncoder.{
  EncoderState, init_property_encoder, open_cbor_container, try_append, handle_out_of_memory,
  skip_property, trim_append, close_cbor_container, trim_close, finish_append, send_message, error,
  Tinycbor, Tally, PropertyContainerEncoder, is_error, scan, after_scan, limit_to,
  handle_try_append, handle_init_property_encoder, handle_open_cbor_container,
  handle_out_of_memory_state, handle_skip_property, handle_trim_append, handle_close_cbor_container,
  handle_trim_close, handle_finish_append,
}
use arduino_io_tcloud.CborEncoder.Loop.{step, run_loop}
use arduino_io_tcloud.CborEncoder.Passes.{Fits, below-Fits, length-drop_le, scan-Fits, scan_all}

-- How many properties a pass can take: its limit, or all and one more.
abbrev pub bound : {V D E : Type 0} → PropertyContainerEncoder V D E → ℕ
bound s =
    if s.property_limit_active then s.encoded_property_limit else suc (length s.property_container)

-- How many rounds are left, at most, with that bound, `n` properties encoded and `size` in all.
abbrev pub weight : EncoderState → ℕ → ℕ → ℕ → ℕ
weight init_property_encoder b n size = 6 * suc size + 6
weight open_cbor_container b n size = 6 * b + 5
weight try_append b n size = 6 * b + 4
weight trim_append b n size = 6 * n + 6
weight handle_out_of_memory b n size = 6 * n + 4
weight close_cbor_container b n size = 6 * n + 3
weight trim_close b n size = 6 * n + 2
weight finish_append b n size = 1
weight skip_property b n size = 1
weight send_message b n size = 0
weight error b n size = 0

module _ {V D E : Type 0} where
  abbrev rounds : EncoderState × PropertyContainerEncoder V D E → ℕ
  rounds (st, s) = weight st (bound s) s.encoded_property_count (length s.property_container)

  -- A pass starts with nothing encoded and room for a property.
  abbrev Fresh : EncoderState → PropertyContainerEncoder V D E → Type 0
  Fresh open_cbor_container s = 0 < bound s
  Fresh try_append s = (s.encoded_property_count ≡ 0) × (0 < bound s)
  Fresh _ s = Unit {0}

  abbrev Less : ℕ → EncoderState × PropertyContainerEncoder V D E → Type 0
  Less n x = (rounds x < n) × Fresh x.0 x.1

  try-Less :
      (limit : ℕ) (err : CborError) (s : PropertyContainerEncoder V D E)
      → Fits err s.encoded_property_count limit
      → Less (6 * limit + 4) (after_scan err, s)
  try-Less limit no_error s h = (omega arith, tt)
  try-Less limit out_of_memory s h = (omega arith, tt)
  try-Less limit split_items s h = (omega arith, tt)
  try-Less limit (other_error x) s h = (omega arith, tt)

  limit-Less : (n : ℕ) (s : PropertyContainerEncoder V D E) → Less (6 * n + 6) (limit_to n s)
  limit-Less n s = elim (Bool-cases (ltb 0 n)) [
    | inl e ↦ rw e (omega arith, ground arith)
    | inr e ↦ rw e (omega arith, tt)
  ]

module _ {V D E M : Type 0} (m : Methods V D E M) (t : Tinycbor E) (light : Bool) where
  scan-bound :
      (now : ℕ) (active : Bool) (limit size : ℕ) (c : PropertyContainer V D) (k : Tally E)
      → k.encoded_property_count ≡ 0
      → 0 < (if active then limit else suc size)
      → length c ≤ size
      → Fits
          (scan m light now active limit c k).0
          (scan m light now active limit c k).2.encoded_property_count
          (if active then limit else suc size)
  scan-bound now true limit size c k z h l = scan-Fits m light now limit c k (omega arith)
  scan-bound now false limit size c k z h l =
      let r = scan m light now false limit c k in
      below-Fits r.0 r.2.encoded_property_count (suc size)
        (omega (arith, scan_all m light now limit c k))

  step-Less :
      (size now : ℕ) (st : EncoderState) (s : PropertyContainerEncoder V D E)
      → Fresh st s
      → 0 < rounds (st, s)
      → Less (rounds (st, s)) (step m t light size now st s)
  unfolding step handle_init_property_encoder handle_open_cbor_container handle_try_append
      handle_out_of_memory_state handle_skip_property handle_trim_append handle_close_cbor_container
      handle_trim_close handle_finish_append
  step-Less size now init_property_encoder s f w = (omega arith, omega arith)
  step-Less size now open_cbor_container s f w = (omega arith, (refl, f))
  step-Less size now try_append s f w =
      let c = drop s.current_property_index s.property_container in
      let (err, c', k) =
        scan m light now s.property_limit_active s.encoded_property_limit c s.tally in
      try-Less (bound s) err
        (record s {
          property_container = take s.current_property_index s.property_container ++ c';
          tally = k;
        })
        (scan-bound now s.property_limit_active s.encoded_property_limit
          (length s.property_container) c s.tally f.0 f.1
          (length-drop_le s.current_property_index s.property_container))
  step-Less size now handle_out_of_memory s f w =
      if_both (λ st. Less (6 * s.encoded_property_count + 4) (st, s))
        (ltb 0 s.encoded_property_count) close_cbor_container skip_property (omega arith, tt)
        (omega arith, tt)
  step-Less size now skip_property s f w = (omega arith, tt)
  step-Less size now trim_append s f w = limit-Less s.encoded_property_count s
  step-Less size now close_cbor_container s f w =
      let (err, e) = t.encoder_close_container s.encoder s.array_encoder in
      if_both (λ st. Less (6 * s.encoded_property_count + 3) (st, record s { encoder = e }))
        (is_error err) trim_close finish_append (omega arith, tt) (omega arith, tt)
  step-Less size now trim_close s f w = elim (Bool-cases (ltb 0 (s.encoded_property_count - 1))) [
    | inl e ↦ rw e (ground arith, ground arith)
    | inr e ↦ rw e (omega arith, tt)
  ]
  step-Less size now finish_append s f w = (omega arith, tt)
  step-Less size now send_message s f w = absurd (omega arith)
  step-Less size now error s f w = absurd (omega arith)

  abbrev Returns : Option (EncoderState × PropertyContainerEncoder V D E) → Type 0
  Returns o = (x : EncoderState × PropertyContainerEncoder V D E) × (o ≡ some x)

  -- A round takes the loop nearer to its end, so what the rest returns is returned.
  forward :
      (f size : ℕ) (clock : ℕ → ℕ) (st : EncoderState) (s : PropertyContainerEncoder V D E)
      → Fresh st s
      → 0 < rounds (st, s)
      → rounds (st, s) < suc f
      → ((st' : EncoderState) (s' : PropertyContainerEncoder V D E)
          → Fresh st' s'
          → rounds (st', s') < f
          → Returns (run_loop m t light f size clock (st', s')))
      → Returns (run_loop m t light f size clock (step m t light size (clock f) st s))
  forward f size clock st s v w h next =
      let d = step-Less size (clock f) st s v w in
      let x = step m t light size (clock f) st s in next x.0 x.1 d.1 (omega arith)

  run_loop-Returns :
      (f size : ℕ) (clock : ℕ → ℕ) (st : EncoderState) (s : PropertyContainerEncoder V D E)
      → Fresh st s
      → rounds (st, s) < f
      → Returns (run_loop m t light f size clock (st, s))
  unfolding run_loop
  run_loop-Returns zero size clock st s v h = absurd (omega arith)
  run_loop-Returns (suc f) size clock send_message s v h = ((send_message, s), refl)
  run_loop-Returns (suc f) size clock error s v h = ((error, s), refl)
  run_loop-Returns (suc f) size clock init_property_encoder s v h =
      forward f size clock init_property_encoder s v (omega arith) h (run_loop-Returns f size clock)
  run_loop-Returns (suc f) size clock open_cbor_container s v h =
      forward f size clock open_cbor_container s v (omega arith) h (run_loop-Returns f size clock)
  run_loop-Returns (suc f) size clock try_append s v h =
      forward f size clock try_append s v (omega arith) h (run_loop-Returns f size clock)
  run_loop-Returns (suc f) size clock handle_out_of_memory s v h =
      forward f size clock handle_out_of_memory s v (omega arith) h (run_loop-Returns f size clock)
  run_loop-Returns (suc f) size clock skip_property s v h =
      forward f size clock skip_property s v (omega arith) h (run_loop-Returns f size clock)
  run_loop-Returns (suc f) size clock trim_append s v h =
      forward f size clock trim_append s v (omega arith) h (run_loop-Returns f size clock)
  run_loop-Returns (suc f) size clock close_cbor_container s v h =
      forward f size clock close_cbor_container s v (omega arith) h (run_loop-Returns f size clock)
  run_loop-Returns (suc f) size clock trim_close s v h =
      forward f size clock trim_close s v (omega arith) h (run_loop-Returns f size clock)
  run_loop-Returns (suc f) size clock finish_append s v h =
      forward f size clock finish_append s v (omega arith) h (run_loop-Returns f size clock)

  -- The loop ends, since each pass that is repeated takes fewer properties than the one before: six
  -- rounds for each property and thirteen more are enough.
  pub run_loop-returns :
      (f size : ℕ) (clock : ℕ → ℕ) (s : PropertyContainerEncoder V D E)
      → 6 * length s.property_container + 12 < f
      → (x : EncoderState × PropertyContainerEncoder V D E) × (run_loop m t light f size clock
            (init_property_encoder, s)
          ≡ some x)
  run_loop-returns f size clock s h =
      run_loop-Returns f size clock init_property_encoder s tt (omega arith)
