-- ===== src/Lzss/Stream.antt =====
-- `handle_state` and `decompress` of src/utility/lzss/lzss.cpp run the state machine over the bits
-- of their input.
use mathlib.Core.Path.{subst}
use arduino_io_tcloud.Common.{
  ℕ, zero, suc, ◌+◌, ◌*◌, ◌^◌, ◌<◌, ◌≤◌, ◌≡◌, refl, sym, ap, ap₂, ◌∙◌, Option, none, some, List, [],
  ◌++◌, append-nil, length, length-append, u32_mod, arith,
}
use arduino_io_tcloud.Lzss.{
  Core, LzssDecoder, Status, in_progress, not_completed, Read, bits_required, dispatch, react,
  getbit, handle_state, run_loop, while_in_progress, offer, decompress,
}
use arduino_io_tcloud.Lzss.Bits.{bits, stream, pull, pull_more, length-bits, length-stream}
use arduino_io_tcloud.Lzss.Machine.{
  drive, absorb, drive-none, drive-some, drive-absorb, IsLive, dispatch-IsLive, drive-IsLive,
  drive-stuck, bits_required-le, bits_required-pos,
}
use arduino_io_tcloud.Lzss.Reader.{Fed, AreBytes, pending, Pulls, got, starved, getbit-Pulls}

data Steps (p : List ℕ) (w : Core) : Status × LzssDecoder → Type 0 where
  moved :
      (v : ℕ) (d : LzssDecoder) (bytes : List ℕ)
      → Fed 10 d bytes
      → pull (bits_required w.state) p ≡ some (v, pending d bytes)
      → d.core ≡ dispatch w.state v w
      → Steps p w (in_progress, d)
  waits :
      (d : LzssDecoder)
      → Fed 10 d []
      → pull (bits_required w.state) p ≡ none
      → pending d [] ≡ p
      → d.core ≡ w
      → Steps p w (not_completed, d)

Pulls-Steps :
    (p : List ℕ) (w : Core) (r : Read × LzssDecoder)
    → Pulls (bits_required w.state) p w r
    → Steps p w (react r)
Pulls-Steps p w r (got v d bytes f e c) =
    moved v (record d { core = dispatch d.state v d.core }) bytes
      (record {
        no_callback = f.no_callback;
        source = f.source;
        size = f.size;
        octets = f.octets;
        clean = f.clean;
        narrow = f.narrow;
      })
      e (ap (λ (x : Core). dispatch x.state v x) c)
Pulls-Steps p w r (starved d f e q c) = waits d f e q c

handle_state-Steps :
    (d : LzssDecoder) (bytes : List ℕ)
    → Fed 10 d bytes
    → Steps (pending d bytes) d.core (handle_state d)
unfolding handle_state
handle_state-Steps d bytes f =
    Pulls-Steps (pending d bytes) d.core (getbit (bits_required d.state) d)
      (getbit-Pulls (bits_required d.state) d bytes (bits_required-le d.state) f)

data Ran (f : ℕ) (p : List ℕ) (w : Core) : Option Status × LzssDecoder → Type 0 where
  ran :
      (d : LzssDecoder)
      → Fed 10 d []
      → drive f w p ≡ (d.core, pending d [])
      → Ran f p w (some not_completed, d)

run_loop-moved :
    (f : ℕ) (d d' : LzssDecoder)
    → handle_state d ≡ (in_progress, d')
    → run_loop (suc f) d ≡ run_loop f d'
unfolding run_loop
run_loop-moved f d d' e = ap (while_in_progress (run_loop f)) e

run_loop-waits :
    (f : ℕ) (d d' : LzssDecoder)
    → handle_state d ≡ (not_completed, d')
    → run_loop (suc f) d ≡ (some not_completed, d')
unfolding run_loop
run_loop-waits f d d' e = ap (while_in_progress (run_loop f)) e

Ran-step :
    (f : ℕ) (p rest : List ℕ) (w w' : Core) (r : Option Status × LzssDecoder)
    → drive (suc f) w p ≡ drive f w' rest
    → Ran f rest w' r
    → Ran (suc f) p w r
Ran-step f p rest w w' r e (ran d fed q) = ran d fed (e ∙ q)

run_loop-step :
    (f : ℕ) (d : LzssDecoder) (p : List ℕ) (r : Status × LzssDecoder)
    → IsLive d.state
    → length p < suc f
    → ((d' : LzssDecoder) (bytes : List ℕ)
        → Fed 10 d' bytes
        → IsLive d'.state
        → length (pending d' bytes) < f
        → Ran f (pending d' bytes) d'.core (run_loop f d'))
    → handle_state d ≡ r
    → Steps p d.core r
    → Ran (suc f) p d.core (run_loop (suc f) d)
run_loop-step f d p r l h ih e (moved v d' bytes fed q c) =
    let live = subst (λ (w : Core). IsLive w.state) (sym c) (dispatch-IsLive d.state v d.core l) in
    let rest = pending d' bytes in
    let less : length rest < f =
      omega (arith, (pull_more (bits_required d.state) p [] q).1, bits_required-pos d.state l) in
    rw (run_loop-moved f d d' e) (
      Ran-step f p rest d.core d'.core (run_loop f d')
        (drive-some f d.core p q ∙ ap (λ w. drive f w rest) (sym c)) (ih d' bytes fed live less))
run_loop-step f d p r l h ih e (waits d' fed q s c) =
    rw (run_loop-waits f d d' e)
      (ran d' fed (drive-none (suc f) d.core p q ∙ ap₂ (λ w xs. (w, xs)) (sym c) (sym s)))

run_loop-Ran :
    (f : ℕ) (d : LzssDecoder) (bytes : List ℕ)
    → Fed 10 d bytes
    → IsLive d.state
    → length (pending d bytes) < f
    → Ran f (pending d bytes) d.core (run_loop f d)
run_loop-Ran zero d bytes fed l h = absurd (omega arith)
run_loop-Ran (suc f) d bytes fed l h =
    run_loop-step f d (pending d bytes) (handle_state d) l h (run_loop-Ran f) refl
      (handle_state-Steps d bytes fed)

-- The bits that a decoder keeps for the next call of `decompress`.
abbrev pub kept : LzssDecoder → List ℕ
kept d = bits d.buf_size d.buf

-- A decoder in buffer mode between two calls of `decompress`.
pub record Ready (d : LzssDecoder) : Type 0 where
  pub no_callback : d.get_char_cbk ≡ none
  pub drained : d.available ≡ 0
  pub clean : d.buf < 2 ^ d.buf_size
  pub narrow : d.buf_size ≤ 10
  pub live : IsLive d.state
  pub stuck : pull (bits_required d.state) (kept d) ≡ none

abbrev pub fuel_for : List ℕ → ℕ
fuel_for bytes = 8 * length bytes + 11

-- What a call of `decompress` with all of `bytes` comes to.
pub record Decompressed (d : LzssDecoder) (bytes : List ℕ) (r : Option Status × LzssDecoder)
    : Type 0 where
  pub waiting : r.0 ≡ some not_completed
  pub ready : Ready r.1
  pub absorbed : absorb d.core (kept d ++ stream bytes) ≡ (r.1.core, kept r.1)

Ran-Decompressed :
    (f : ℕ) (d : LzssDecoder) (bytes : List ℕ) (r : Option Status × LzssDecoder)
    → IsLive d.state
    → length (kept d ++ stream bytes) < f
    → Ran f (kept d ++ stream bytes) d.core r
    → Decompressed d bytes (r.0, record (r.1) { in_buffer = none })
unfolding stream
Ran-Decompressed f d bytes r l h (ran d' fed e) =
    let all = kept d ++ stream bytes in
    record {
      waiting = refl;
      ready = record {
        no_callback = fed.no_callback;
        drained = fed.size;
        clean = fed.clean;
        narrow = fed.narrow;
        live = subst (λ (x : Core × List ℕ). IsLive x.0.state) e (drive-IsLive f d.core all l);
        stuck =
            subst (λ (x : Core × List ℕ). pull (bits_required x.0.state) x.1 ≡ none)
              (e ∙ ap (λ xs. (d'.core, xs)) (append-nil (kept d'))) (drive-stuck f d.core all l h);
      };
      absorbed =
          sym (drive-absorb f d.core all l h) ∙ e ∙ ap (λ xs. (d'.core, xs)) (append-nil (kept d'));
    }

-- From a decoder that is ready, with all of a chunk of bytes offered, `decompress` returns within
-- the fuel: it has worked off all tokens that are complete, waits in the middle of the next one,
-- and is ready for the next chunk.
pub decompress-Decompressed :
    (d : LzssDecoder) (bytes : List ℕ)
    → Ready d
    → AreBytes bytes
    → length bytes < u32_mod
    → Decompressed d bytes (decompress (fuel_for bytes) (some bytes) (length bytes) d)
unfolding decompress
decompress-Decompressed d bytes v o h =
    let size = length bytes in
    let offered = offer none (some bytes) size d in
    let fed : Fed 10 offered bytes = record {
      no_callback = v.no_callback;
      source = refl;
      size = omega (arith, v.drained);
      octets = o;
      clean = v.clean;
      narrow = v.narrow;
    } in
    let short : length (kept d ++ stream bytes) < fuel_for bytes = omega (
      arith,
      length-append (kept d) (stream bytes),
      length-bits d.buf_size d.buf,
      length-stream bytes,
      v.narrow,
    ) in
    subst
      (λ c.
        let r = run_loop (fuel_for bytes) (offer c (some bytes) size d) in
        Decompressed d bytes (r.0, record (r.1) { in_buffer = none }))
      (sym v.no_callback)
      (Ran-Decompressed (fuel_for bytes) d bytes (run_loop (fuel_for bytes) offered) v.live short
        (run_loop-Ran (fuel_for bytes) offered bytes fed v.live short))
