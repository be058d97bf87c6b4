-- ===== src/CborEncoder.antt =====
-- src/cbor/CBOREncoder.{h,cpp}: the state machine that packs the properties which ask for it into
-- one message, from `current_property_index` on, and starts again with fewer of them when the
-- message does not fit. The calls of tinycbor are a `Tinycbor`; the encoders are values of a type
-- `E`, which hold the buffer `data`. `millis()` is read once for each pass over the properties.
pub mod Loop
pub mod Passes
pub mod Rounds
pub mod Completed
pub mod Accounts
use arduino_io_tcloud.Common.{
  ℕ, zero, suc, ◌+◌, ◌-◌, ◌*◌, Bool, true, false, ◌&&◌, ◌||◌, Option, none, some, List, [], ◌∷◌,
  ◌++◌, length, take, drop, ltb, leb, if◌then◌else◌,
}
use arduino_io_tcloud.Property.{
  Property, Methods, CborError, no_error, out_of_memory, split_items, other_error, append,
  append_completed, should_be_updated, is_readable_by_cloud,
}
use arduino_io_tcloud.Container.{PropertyContainer}

pub data EncoderState : Type 0 where
  init_property_encoder open_cbor_container try_append handle_out_of_memory : EncoderState
  skip_property trim_append close_cbor_container trim_close finish_append : EncoderState
  send_message error : EncoderState

-- `cbor_encoder_init` with a buffer of a size, `cbor_encoder_create_array` (the parent and the new
-- encoder), `cbor_encoder_close_container` and `cbor_encoder_get_buffer_size`.
pub record Tinycbor (E : Type 0) : Type 0 where
  pub encoder_init : ℕ → E
  pub encoder_create_array : E → E × E
  pub encoder_close_container : E → E → CborError × E
  pub encoder_get_buffer_size : E → ℕ

-- What a pass changes besides the properties.
pub record Tally (E : Type 0) : Type 0 where
  pub encoded_property_count : ℕ
  pub checked_property_count : ℕ
  pub array_encoder : E

pub record PropertyContainerEncoder (V D E : Type 0) : Type 0 where
  pub property_container : PropertyContainer V D
  pub current_property_index : ℕ
  pub encoded_property_limit : ℕ
  pub property_limit_active : Bool
  pub encoder : E
  pub tally : Tally E
  pub open tally use *

-- `CborErrorInternalError`.
abbrev pub internal_error : CborError
internal_error = other_error 0x7fff_ffff

abbrev pub is_error : CborError → Bool
is_error no_error = false
is_error _ = true

abbrev pub after_scan : CborError → EncoderState
after_scan out_of_memory = handle_out_of_memory
after_scan no_error = close_cbor_container
after_scan split_items = trim_append
after_scan (other_error n) = error

module _ {E : Type 0} where
  -- `maximum_number_of_properties_reached || cbor_encoder_error`.
  abbrev pub stops : Bool → ℕ → CborError → Tally E → Bool
  stops active limit err k = (leb limit k.encoded_property_count && active) || is_error err

-- `appendCompleted` on the first `n` properties.
unfoldable pub complete : {V D : Type 0} → ℕ → PropertyContainer V D → PropertyContainer V D
complete n [] = []
complete zero (p ∷ c) = p ∷ c
complete (suc n) (p ∷ c) = append_completed p ∷ complete n c

module _ {V D E : Type 0} where
  -- The counters after a property, by the result of appending it.
  abbrev pub count : CborError × Property V D × E → Tally E → CborError × Property V D × Tally E
  count (no_error, p, e) k = (
    no_error,
    p,
    record {
      encoded_property_count = k.encoded_property_count + 1;
      checked_property_count = k.checked_property_count + 1;
      array_encoder = e;
    },
  )
  count (err, p, e) k = (err, p, record k { array_encoder = e })

  -- The rest of the loop after a property: `next` goes on with the others.
  abbrev pub proceed :
      Bool
      → PropertyContainer V D
      → (Tally E → CborError × PropertyContainer V D × Tally E)
      → CborError × Property V D × Tally E
      → CborError × PropertyContainer V D × Tally E
  proceed true c next (err, p, k) = (err, p ∷ c, k)
  proceed false c next (err, p, k) = let (err', c', k') = next k in (err', p ∷ c', k')

  abbrev pub after_visit :
      Bool
      → ℕ
      → PropertyContainer V D
      → (Tally E → CborError × PropertyContainer V D × Tally E)
      → CborError × Property V D × Tally E
      → CborError × PropertyContainer V D × Tally E
  after_visit active limit c next r = proceed (stops active limit r.0 r.2) c next r

  unfoldable pub handle_init_property_encoder :
      PropertyContainerEncoder V D E → EncoderState × PropertyContainerEncoder V D E
  handle_init_property_encoder s = (
    open_cbor_container,
    record s {
      tally = record (s.tally) { encoded_property_count = 0; checked_property_count = 0 };
      encoded_property_limit = 0;
      property_limit_active = false;
    },
  )

  unfoldable pub handle_out_of_memory_state :
      PropertyContainerEncoder V D E → EncoderState × PropertyContainerEncoder V D E
  handle_out_of_memory_state s =
      (if ltb 0 s.encoded_property_count then close_cbor_container else skip_property, s)

  -- An index past the end starts again at 0.
  abbrev pub wrap_index : ℕ → PropertyContainerEncoder V D E → ℕ
  wrap_index n s = if leb (length s.property_container) n then 0 else n

  unfoldable pub handle_skip_property :
      PropertyContainerEncoder V D E → EncoderState × PropertyContainerEncoder V D E
  handle_skip_property s =
      (error, record s { current_property_index = wrap_index (s.current_property_index + 1) s })

  -- The next pass takes `n` properties at most.
  abbrev pub limit_to :
      ℕ → PropertyContainerEncoder V D E → EncoderState × PropertyContainerEncoder V D E
  limit_to n s = (
    if ltb 0 n then open_cbor_container else error,
    record s { encoded_property_limit = n; property_limit_active = true },
  )

  unfoldable pub handle_trim_append :
      PropertyContainerEncoder V D E → EncoderState × PropertyContainerEncoder V D E
  handle_trim_append s = limit_to s.encoded_property_count s

  -- Where nothing was encoded the limit is -1 in C++ and 0 here; both lead to the error.
  unfoldable pub handle_trim_close :
      PropertyContainerEncoder V D E → EncoderState × PropertyContainerEncoder V D E
  handle_trim_close s = limit_to (s.encoded_property_count - 1) s

  unfoldable pub handle_finish_append :
      PropertyContainerEncoder V D E → EncoderState × PropertyContainerEncoder V D E
  handle_finish_append s =
      let i = s.current_property_index in
      (
        send_message,
        record s {
          property_limit_active = false;
          property_container =
              take i s.property_container
              ++ complete s.checked_property_count (drop i s.property_container);
          current_property_index = wrap_index (i + s.checked_property_count) s;
        },
      )

module _ {V D E : Type 0} (t : Tinycbor E) where
  unfoldable pub handle_open_cbor_container :
      ℕ → PropertyContainerEncoder V D E → EncoderState × PropertyContainerEncoder V D E
  handle_open_cbor_container size s =
      let (parent, array) = t.encoder_create_array (t.encoder_init size) in
      (
        try_append,
        record s {
          encoder = parent;
          tally = record {
            encoded_property_count = 0;
            checked_property_count = 0;
            array_encoder = array;
          };
        },
      )

  unfoldable pub handle_close_cbor_container :
      PropertyContainerEncoder V D E → EncoderState × PropertyContainerEncoder V D E
  handle_close_cbor_container s =
      let (err, e) = t.encoder_close_container s.encoder s.array_encoder in
      (if is_error err then trim_close else finish_append, record s { encoder = e })

module _ {V D E M : Type 0} (m : Methods V D E M) (light : Bool) where
  -- The body of the loop of TryAppend up to its test.
  unfoldable pub visit : ℕ → Property V D → Tally E → CborError × Property V D × Tally E
  visit now p k =
      if should_be_updated m now p && is_readable_by_cloud p
      then count (append m now light p k.array_encoder) k
      else (no_error, p, record k { checked_property_count = k.checked_property_count + 1 })

  -- The loop of TryAppend over the properties that are left.
  unfoldable pub scan :
      ℕ → Bool → ℕ → PropertyContainer V D → Tally E → CborError × PropertyContainer V D × Tally E
  scan now active limit [] k = (no_error, [], k)
  scan now active limit (p ∷ c) k =
      after_visit active limit c (scan now active limit c) (visit now p k)

  unfoldable pub handle_try_append :
      ℕ → PropertyContainerEncoder V D E → EncoderState × PropertyContainerEncoder V D E
  handle_try_append now s =
      let (err, c, k) =
        scan now s.property_limit_active s.encoded_property_limit
          (drop s.current_property_index s.property_container) s.tally in
      (
        after_scan err,
        record s {
          property_container = take s.current_property_index s.property_container ++ c;
          tally = k;
        },
      )
