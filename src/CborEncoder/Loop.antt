-- ===== src/CborEncoder/Loop.antt =====
-- The loop of `encode` in src/cbor/CBOREncoder.cpp.
use arduino_io_tcloud.Common.{ℕ, zero, suc, Bool, Option, none, some, ltb, if◌then◌else◌}
use arduino_io_tcloud.Property.{Methods, CborError, no_error}
use arduino_io_tcloud.CborEncoder.{
  EncoderState, init_property_encoder, open_cbor_container, try_append, handle_out_of_memory,
  skip_property, trim_append, close_cbor_container, trim_close, finish_append, send_message, error,
  Tinycbor, PropertyContainerEncoder, internal_error, handle_init_property_encoder,
  handle_out_of_memory_state, handle_skip_property, handle_trim_append, handle_trim_close,
  handle_finish_append, handle_open_cbor_container, handle_close_cbor_container, handle_try_append,
}

module _ {V D E : Type 0} (t : Tinycbor E) where
  -- `encode`: its result and `bytes_encoded`, which an error leaves as it was.
  abbrev pub finish :
      ℕ
      → EncoderState × PropertyContainerEncoder V D E
      → CborError × ℕ × PropertyContainerEncoder V D E
  finish bytes (error, s) = (internal_error, bytes, s)
  finish bytes (_, s) = (
    no_error,
    (if ltb 0 s.encoded_property_count then t.encoder_get_buffer_size s.encoder else 0),
    s,
  )

module _ {V D E M : Type 0} (m : Methods V D E M) (t : Tinycbor E) (light : Bool) where
  -- One round of the loop of `encode`.
  unfoldable pub step :
      ℕ
      → ℕ
      → EncoderState
      → PropertyContainerEncoder V D E
      → EncoderState × PropertyContainerEncoder V D E
  step size now init_property_encoder s = handle_init_property_encoder s
  step size now open_cbor_container s = handle_open_cbor_container t size s
  step size now try_append s = handle_try_append m light now s
  step size now handle_out_of_memory s = handle_out_of_memory_state s
  step size now skip_property s = handle_skip_property s
  step size now trim_append s = handle_trim_append s
  step size now close_cbor_container s = handle_close_cbor_container t s
  step size now trim_close s = handle_trim_close s
  step size now finish_append s = handle_finish_append s
  step size now send_message s = (send_message, s)
  step size now error s = (error, s)

  -- The loop, on fuel; `clock` shows the time of each round. The result is where it ends.
  unfoldable pub run_loop :
      ℕ
      → ℕ
      → (ℕ → ℕ)
      → EncoderState × PropertyContainerEncoder V D E
      → Option (EncoderState × PropertyContainerEncoder V D E)
  run_loop zero size clock x = none
  run_loop (suc f) size clock (send_message, s) = some (send_message, s)
  run_loop (suc f) size clock (error, s) = some (error, s)
  run_loop (suc f) size clock (st, s) = run_loop f size clock (step size (clock f) st s)

  unfoldable pub encode :
      ℕ
      → ℕ
      → (ℕ → ℕ)
      → ℕ
      → PropertyContainerEncoder V D E
      → Option (CborError × ℕ × PropertyContainerEncoder V D E)
  encode fuel size clock bytes s = elim (run_loop fuel size clock (init_property_encoder, s)) [
    | none ↦ none
    | some x ↦ some (finish t bytes x)
  ]
