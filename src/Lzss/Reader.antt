-- ===== src/Lzss/Reader.antt =====
-- The bit reader of src/utility/lzss/lzss.cpp (`getc`, `getbit`) reads the ideal bit string: the
-- bits kept in `buf`, and then those of the input buffer.
use native.Mathlib.Nat.{
  pow-le-pow_right, one-le-pow, mod-lt, div-add-mod', div-lt_iff_lt-mul, mul_comm,
}
use arduino_io_tcloud.Common.{
  ℕ, zero, suc, ◌+◌, ◌-◌, ◌*◌, ◌/◌, ◌%◌, ◌^◌, ◌<◌, ◌≤◌, ◌≡◌, refl, sym, ap, ◌∙◌, inl, inr, Option,
  none, some, List, [], ◌∷◌, ◌++◌, append_assoc, length, length-append, Bool-cases, ltb, ltb→lt,
  u32_mod, arith, true, false,
}
use arduino_io_tcloud.Lzss.{
  Core, LzssDecoder, Read, code, lzss_buffer_empty, getc, shift_in, fill, getbit, finish_getbit,
}
use arduino_io_tcloud.Lzss.Bits.{
  bits, stream, pull, bits-append, length-bits, pull-bits, pull_short, pow-add,
}

abbrev pub AreBytes : List ℕ → Type 0
AreBytes [] = Unit {0}
AreBytes (b ∷ bs) = (b < 256) × AreBytes bs

-- A decoder in buffer mode that still has `bytes` to read, with at most `m` bits kept, and no
-- others in `buf`.
pub record Fed (m : ℕ) (d : LzssDecoder) (bytes : List ℕ) : Type 0 where
  pub no_callback : d.get_char_cbk ≡ none
  pub source : d.in_buffer ≡ some bytes
  pub size : d.available ≡ length bytes
  pub octets : AreBytes bytes
  pub clean : d.buf < 2 ^ d.buf_size
  pub narrow : d.buf_size ≤ m

-- The bits that are still to be read.
abbrev pub pending : LzssDecoder → List ℕ → List ℕ
pending d bytes = bits d.buf_size d.buf ++ stream bytes

getc-nil : {m : ℕ} {d : LzssDecoder} → Fed m d [] → getc d ≡ (lzss_buffer_empty, d)
unfolding getc
getc-nil {m} {d} v = ground arith

getc-cons :
    {m b : ℕ} {d : LzssDecoder} {bs : List ℕ}
    → Fed m d (b ∷ bs)
    → getc d ≡ (code b, record d { in_buffer = some bs; available = length bs })
unfolding getc
getc-cons {m} {b} {d} {bs} v = ground arith

pow-le : (s : ℕ) → s ≤ 10 → 2 ^ s ≤ 1024
pow-le s h = pow-le-pow_right (omega arith) h

shift_in-Fed :
    {b : ℕ} {d : LzssDecoder} {bs : List ℕ}
    → Fed 10 d (b ∷ bs)
    → let d' = shift_in b (record d { in_buffer = some bs; available = length bs }) in
      Fed 18 d' bs × (d'.buf_size ≡ 8 + d.buf_size) × (pending d' bs ≡ pending d (b ∷ bs))
unfolding stream
shift_in-Fed {b} {d} {bs} v =
    let small : d.buf < 1024 = omega (arith, pow-le d.buf_size v.narrow) in
    let wider : (d.buf_size + 8) % u32_mod ≡ 8 + d.buf_size = omega arith in
    let joined : d.buf * 256 % u32_mod + b % 256 ≡ d.buf * 2 ^ 8 + b = omega arith in
    let fits : d.buf * 2 ^ 8 + b < 2 ^ (8 + d.buf_size) = rw (pow-add 8 d.buf_size) (omega arith) in
    (
      record {
        no_callback = v.no_callback;
        source = refl;
        size = refl;
        octets = v.octets.1;
        clean = rw (wider, joined) fits;
        narrow = omega arith;
      },
      wider,
      rw (wider, joined, bits-append d.buf_size 8 d.buf b v.octets.0)
          (append_assoc (bits d.buf_size d.buf) (bits 8 b) (stream bs)),
    )

-- What the loop of `getbit` comes to, for a decoder that is in state `w` and has the bits `p` to
-- read: `n` bits or more are there, or all input is used up.
pub data Filled (n : ℕ) (p : List ℕ) (w : Core) : Option Read × LzssDecoder → Type 0 where
  enough :
      (d : LzssDecoder) (bytes : List ℕ)
      → Fed 18 d bytes
      → n ≤ d.buf_size
      → d.buf_size ≤ n + 10
      → pending d bytes ≡ p
      → d.core ≡ w
      → Filled n p w (none, d)
  short :
      (d : LzssDecoder)
      → Fed 10 d []
      → d.buf_size < n
      → pending d [] ≡ p
      → d.core ≡ w
      → Filled n p w (some lzss_buffer_empty, d)

fill-none : (f n : ℕ) (d : LzssDecoder) → ltb d.buf_size n ≡ false → fill f n d ≡ (none, d)
unfolding fill
fill-none zero n d e = refl
fill-none (suc f) n d e = rw (e, fill)

fill-short :
    (f n : ℕ) (d : LzssDecoder)
    → ltb d.buf_size n ≡ true
    → getc d ≡ (lzss_buffer_empty, d)
    → fill (suc f) n d ≡ (some lzss_buffer_empty, d)
unfolding fill
fill-short f n d e g = ground arith

fill-byte :
    (f n b : ℕ) (d d' : LzssDecoder)
    → ltb d.buf_size n ≡ true
    → getc d ≡ (code b, d')
    → fill (suc f) n d ≡ fill f n (shift_in b d')
unfolding fill
fill-byte f n b d d' e g = ground arith

narrower :
    {n : ℕ} {d : LzssDecoder} {bytes : List ℕ}
    → n ≤ 11
    → d.buf_size < n
    → Fed 18 d bytes
    → Fed 10 d bytes
narrower h lt v = record {
  no_callback = v.no_callback;
  source = v.source;
  size = v.size;
  octets = v.octets;
  clean = v.clean;
  narrow = omega arith;
}

pub fill-Filled :
    (f n : ℕ) (d : LzssDecoder) (bytes : List ℕ)
    → n ≤ 11
    → n ≤ f + d.buf_size
    → d.buf_size ≤ n + 10
    → Fed 18 d bytes
    → Filled n (pending d bytes) d.core (fill f n d)
fill-Filled zero n d bytes h k m v = unfold fill in enough d bytes v (omega arith) m refl refl
fill-Filled (suc f) n d [] h k m v = elim (Bool-cases (ltb d.buf_size n)) [
  | inl e ↦
      let lt = ltb→lt d.buf_size n e in
      let v' = narrower h lt v in rw (fill-short f n d e (getc-nil v')) (short d v' lt refl refl)
  | inr e ↦ rw (fill-none (suc f) n d e) (enough d [] v (ground arith) m refl refl)
]
fill-Filled (suc f) n d (b ∷ bs) h k m v = elim (Bool-cases (ltb d.buf_size n)) [
  | inl e ↦
      let lt = ltb→lt d.buf_size n e in
      let v' = narrower h lt v in
      let next = record d { in_buffer = some bs; available = length bs } in
      let s = shift_in-Fed v' in
      rw (fill-byte f n b d next e (getc-cons v'), ← s.2)
        (fill-Filled f n (shift_in b next) bs h (omega arith) (omega arith) s.0)
  | inr e ↦ rw (fill-none (suc f) n d e) (enough d (b ∷ bs) v (ground arith) m refl refl)
]

-- What `getbit` comes to: the next `n` bits of `p`, or nothing where `p` is too short.
pub data Pulls (n : ℕ) (p : List ℕ) (w : Core) : Read × LzssDecoder → Type 0 where
  got :
      (v : ℕ) (d : LzssDecoder) (bytes : List ℕ)
      → Fed 10 d bytes
      → pull n p ≡ some (v, pending d bytes)
      → d.core ≡ w
      → Pulls n p w (code v, d)
  starved :
      (d : LzssDecoder)
      → Fed 10 d []
      → pull n p ≡ none
      → pending d [] ≡ p
      → d.core ≡ w
      → Pulls n p w (lzss_buffer_empty, d)

-- The top `n` bits of a number, and the rest of it.
split_bits :
    (n k v : ℕ)
    → v < 2 ^ (k + n)
    → (bits (k + n) v ≡ bits n (v / 2 ^ k) ++ bits k (v % 2 ^ k))
      × (v / 2 ^ k < 2 ^ n)
      × (v % 2 ^ k < 2 ^ k)
split_bits n k v h =
    let positive = one-le-pow k 2 (omega arith) in
    let low = mod-lt v positive in
    (
      ap (bits (k + n)) (sym (div-add-mod' v (2 ^ k)))
          ∙ bits-append n k (v / 2 ^ k) (v % 2 ^ k) low,
      (div-lt_iff_lt-mul positive).1 (rw (mul_comm (2 ^ n) (2 ^ k), ← pow-add k n) h),
      low,
    )

Filled-Pulls :
    (n : ℕ) (p : List ℕ) (w : Core) (r : Option Read × LzssDecoder)
    → Filled n p w r
    → Pulls n p w (finish_getbit n r)
unfolding stream
Filled-Pulls n p w r (enough d bytes v le room e c) =
    let k = d.buf_size - n in
    let whole : d.buf_size ≡ k + n = omega arith in
    let s = split_bits n k d.buf (rw (← whole) v.clean) in
    let low = bits k (d.buf % 2 ^ k) in
    let cut : pending d bytes ≡ bits n (d.buf / 2 ^ k) ++ (low ++ stream bytes) =
      ap (λ m. bits m d.buf ++ stream bytes) whole
      ∙ ap (λ xs. xs ++ stream bytes) s.0
      ∙ append_assoc (bits n (d.buf / 2 ^ k)) low (stream bytes) in
    got (d.buf / 2 ^ k) (record d { buf = d.buf % 2 ^ k; buf_size = k }) bytes
      (record {
        no_callback = v.no_callback;
        source = v.source;
        size = v.size;
        octets = v.octets;
        clean = s.2;
        narrow = omega arith;
      })
      (ap (pull n) (sym e ∙ cut) ∙ pull-bits n (d.buf / 2 ^ k) (low ++ stream bytes) s.1) c
Filled-Pulls n p w r (short d v lt e c) =
    let few : length (pending d []) < n =
      omega (arith, length-append (bits d.buf_size d.buf) [], length-bits d.buf_size d.buf) in
    starved d v (ap (pull n) (sym e) ∙ pull_short n (pending d []) few) e c

widen : {d : LzssDecoder} {bytes : List ℕ} → Fed 10 d bytes → Fed 18 d bytes
widen v = record {
  no_callback = v.no_callback;
  source = v.source;
  size = v.size;
  octets = v.octets;
  clean = v.clean;
  narrow = omega arith;
}

-- `getbit` takes up to eleven bits off the bits it keeps and those of its buffer, as their value,
-- or, if there are too few, takes in the whole buffer and says that it is empty.
pub getbit-Pulls :
    (n : ℕ) (d : LzssDecoder) (bytes : List ℕ)
    → n ≤ 11
    → Fed 10 d bytes
    → Pulls n (pending d bytes) d.core (getbit n d)
unfolding getbit
getbit-Pulls n d bytes h v =
    Filled-Pulls n (pending d bytes) d.core (fill n n d)
      (fill-Filled n n d bytes h (omega arith) (omega arith) (widen v))
