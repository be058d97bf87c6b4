-- ===== src/Lzss/Faults.antt =====
-- Where src/utility/lzss/lzss.{h,cpp} does not do what its comments say: the end of the input is
-- never seen, and the bit buffer starts out uninitialised.
use mathlib.Core.Path.{subst}
use arduino_io_tcloud.Common.{
  ℕ, zero, suc, ◌+◌, ◌%◌, ◌^◌, ◌<◌, ◌≡◌, ◌≢◌, refl, sym, ap, ◌∙◌, inl, inr, Option, none, some,
  List, ◌∷◌, ltb, Bool-cases, ◌==◌, ℤ, arith, u32_mod,
}
use arduino_io_tcloud.Lzss.{
  LzssDecoder, Garbage, Status, done, in_progress, not_completed, Read, code, lzss_eof,
  lzss_buffer_empty, fsm_1, to_u8, bits_required, getc, getc_from, getc_buffer, fill, shift_in,
  finish_getbit, getbit, react, handle_state, run_loop, while_in_progress, next_byte, offer,
  decompress, create, dispatch,
}

abbrev IsInput : Read → Type 0
IsInput (code c) = Unit {0}
IsInput lzss_eof = ⊥
IsInput lzss_buffer_empty = Unit {0}

abbrev Stops : Option Read → Type 0
Stops none = Unit {0}
Stops (some c) = IsInput c

getc_buffer-IsInput : (b : Option (List ℕ)) (d : LzssDecoder) → IsInput (getc_buffer b d).0
unfolding getc_buffer
getc_buffer-IsInput none d = tt
getc_buffer-IsInput (some bytes) d = elim (Bool-cases (d.available == 0)) [
  | inl e ↦ rw e tt
  | inr e ↦ rw e tt
]

getc_from-IsInput : (cbk : Option (ℕ → ℤ)) (d : LzssDecoder) → IsInput (getc_from cbk d).0
unfolding getc_from
getc_from-IsInput (some cbk) d = tt
getc_from-IsInput none d = getc_buffer-IsInput d.in_buffer d

getc-IsInput : (d : LzssDecoder) → IsInput (getc d).0
unfolding getc
getc-IsInput d = getc_from-IsInput d.get_char_cbk d

next_byte-Stops :
    (next : LzssDecoder → Option Read × LzssDecoder) (r : Read × LzssDecoder)
    → ((d : LzssDecoder) → Stops (next d).0)
    → IsInput r.0
    → Stops (next_byte next r).0
next_byte-Stops next (code b, d) h i = h (shift_in b d)
next_byte-Stops next (lzss_eof, d) h i = i
next_byte-Stops next (lzss_buffer_empty, d) h i = tt

fill-Stops : (f n : ℕ) (d : LzssDecoder) → Stops (fill f n d).0
unfolding fill
fill-Stops zero n d = tt
fill-Stops (suc f) n d = elim (Bool-cases (ltb d.buf_size n)) [
  | inl e ↦ rw (e, fill) (next_byte-Stops (fill f n) (getc d) (fill-Stops f n) (getc-IsInput d))
  | inr e ↦ rw (e, fill) tt
]

finish_getbit-IsInput :
    (n : ℕ) (r : Option Read × LzssDecoder) → Stops r.0 → IsInput (finish_getbit n r).0
finish_getbit-IsInput n (none, d) h = tt
finish_getbit-IsInput n (some c, d) h = h

react-ne-done : (r : Read × LzssDecoder) → IsInput r.0 → (react r).0 ≢ done
react-ne-done (code c, d) i e = cc
react-ne-done (lzss_eof, d) i e = i
react-ne-done (lzss_buffer_empty, d) i e = cc

handle_state-ne-done : (d : LzssDecoder) → (handle_state d).0 ≢ done
unfolding handle_state getbit
handle_state-ne-done d =
    let n = bits_required d.state in
    react-ne-done (getbit n d) (finish_getbit-IsInput n (fill n n d) (fill-Stops n n d))

while_in_progress-ne-done :
    (next : LzssDecoder → Option Status × LzssDecoder) (r : Status × LzssDecoder)
    → ((d : LzssDecoder) → (next d).0 ≢ some done)
    → r.0 ≢ done
    → (while_in_progress next r).0 ≢ some done
while_in_progress-ne-done next (in_progress, d) h i e = h d e
while_in_progress-ne-done next (done, d) h i e = i refl
while_in_progress-ne-done next (d) h i e = cc

run_loop-ne-done : (f : ℕ) (d : LzssDecoder) → (run_loop f d).0 ≢ some done
unfolding run_loop
run_loop-ne-done zero d e = cc
run_loop-ne-done (suc f) d e =
    while_in_progress-ne-done (run_loop f) (handle_state d) (run_loop-ne-done f)
      (handle_state-ne-done d) e

-- No call of `decompress` returns DONE, in buffer mode or in callback mode, whatever the input.
pub decompress-ne-done :
    (fuel size : ℕ) (buffer : Option (List ℕ)) (d : LzssDecoder)
    → (decompress fuel buffer size d).0 ≢ some done
unfolding decompress
decompress-ne-done fuel size buffer d = run_loop-ne-done fuel (offer d.get_char_cbk buffer size d)

-- With a callback every read gives a value, so the loop goes on.
module _ {cbk : ℕ → ℤ} where
  callback-fill :
      (f n : ℕ) (d : LzssDecoder)
      → d.get_char_cbk ≡ some cbk
      → ((fill f n d).0 ≡ none) × ((fill f n d).1.get_char_cbk ≡ some cbk)
  unfolding fill getc
  callback-fill zero n d c = (refl, c)
  callback-fill (suc f) n d c = elim (Bool-cases (ltb d.buf_size n)) [
    | inl e ↦
        let b = to_u8 (cbk d.reads) in
        let read = ap (λ k. next_byte (fill f n) (getc_from k d)) c in
        rw (e, fill)
          (subst (λ (r : Option Read × LzssDecoder). (r.0 ≡ none) × (r.1.get_char_cbk ≡ some cbk))
            (sym read) (callback-fill f n (shift_in b (record d { reads = d.reads + 1 })) c))
    | inr e ↦ rw (e, fill) (refl, c)
  ]

  react_finish :
      (n : ℕ) (r : Option Read × LzssDecoder)
      → r.0 ≡ none
      → r.1.get_char_cbk ≡ some cbk
      → ((react (finish_getbit n r)).0 ≡ in_progress)
        × ((react (finish_getbit n r)).1.get_char_cbk ≡ some cbk)
  react_finish n (none, d) e c = (refl, c)
  react_finish n (some x, d) e c = cc

  callback-handle_state :
      (d : LzssDecoder)
      → d.get_char_cbk ≡ some cbk
      → ((handle_state d).0 ≡ in_progress) × ((handle_state d).1.get_char_cbk ≡ some cbk)
  unfolding handle_state getbit
  callback-handle_state d c =
      let n = bits_required d.state in
      let filled = callback-fill n n d c in react_finish n (fill n n d) filled.0 filled.1

while_goes_on :
    (next : LzssDecoder → Option Status × LzssDecoder) (r : Status × LzssDecoder)
    → r.0 ≡ in_progress
    → while_in_progress next r ≡ next r.1
while_goes_on next (in_progress, d) e = refl
while_goes_on next (done, d) e = cc
while_goes_on next (not_completed, d) e = cc

callback-run_loop :
    (f : ℕ) (cbk : ℕ → ℤ) (d : LzssDecoder) → d.get_char_cbk ≡ some cbk → (run_loop f d).0 ≡ none
unfolding run_loop
callback-run_loop zero cbk d c = refl
callback-run_loop (suc f) cbk d c =
    let h = callback-handle_state d c in
    ap (λ (r : Option Status × LzssDecoder). r.0) (while_goes_on (run_loop f) (handle_state d) h.0)
    ∙ callback-run_loop f cbk (handle_state d).1 h.1

-- A decoder that was made with `getc_cbk` never leaves `decompress`, whatever the callback returns,
-- -1 and -2 included: no amount of fuel is enough for the loop.
pub callback-decompress :
    (fuel size : ℕ) (buffer : Option (List ℕ)) (cbk : ℕ → ℤ) (d : LzssDecoder)
    → d.get_char_cbk ≡ some cbk
    → (decompress fuel buffer size d).0 ≡ none
unfolding decompress
callback-decompress fuel size buffer cbk d c =
    ap (λ k. (run_loop fuel (offer k buffer size d)).0) c ∙ callback-run_loop fuel cbk d c

-- With rubbish in `buf` the first flag of the stream is read as that of a literal, whatever the
-- first byte is.
pub dirty-handle_state :
    (g : Garbage) (b size : ℕ) (bs : List ℕ)
    → 0 < g.buf % 2 ^ 24
    → 0 < size
    → size < u32_mod
    → (handle_state (offer none (some (b ∷ bs)) size (create none g))).1.state ≡ fsm_1
unfolding handle_state getbit fill getc create dispatch getc_buffer
dirty-handle_state g b size bs h k l = ground arith
