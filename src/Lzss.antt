-- ===== src/Lzss.antt =====
-- src/utility/lzss/lzss.{h,cpp}: the resumable LZSS decoder of the OTA download. The class is the
-- record `LzssDecoder`; the part that the switch of `handle_state` works on is its field `core`.
-- Members that a constructor leaves uninitialised are given by a value of `Garbage`.
pub mod Bits
pub mod Machine
pub mod Reader
pub mod Stream
pub mod Resume
pub mod Tokens
pub mod Faults
use arduino_io_tcloud.Common.{
  ℕ, zero, suc, ◌+◌, ◌-◌, ◌*◌, ◌/◌, ◌%◌, ◌^◌, true, false, nonzero, Option, none, some, List, [],
  ◌∷◌, ◌++◌, ltb, ◌==◌, if◌then◌else◌, u32_mod, ℤ, pos, negsuc,
}

abbrev pub ei : ℕ
ei = 11

abbrev pub ej : ℕ
ej = 4

-- `N` and `F`.
abbrev pub window_size : ℕ
window_size = 2 ^ ei

abbrev pub lookahead_size : ℕ
lookahead_size = 2 ^ ej + 1

pub data FsmState : Type 0 where
  fsm_0 fsm_1 fsm_2 fsm_3 fsm_eof : FsmState

pub data Status : Type 0 where
  done in_progress not_completed : Status

-- The `int` that `getc` and `getbit` return: a value, or one of the two negative codes.
pub data Read : Type 0 where
  code : ℕ → Read
  lzss_eof lzss_buffer_empty : Read

-- `out` lists the bytes handed to `putc` so far.
pub record Core : Type 0 where
  pub state : FsmState
  pub i : ℕ
  pub r : ℕ
  pub buffer : ℕ → ℕ
  pub out : List ℕ

-- `in_buffer` is what the pointer leads to; `reads` counts the calls of `get_char_cbk`, which
-- returns its n-th result at `n`.
pub record LzssDecoder : Type 0 where
  pub core : Core
  pub open core use *
  pub buf : ℕ
  pub buf_size : ℕ
  pub in_buffer : Option (List ℕ)
  pub available : ℕ
  pub get_char_cbk : Option (ℕ → ℤ)
  pub reads : ℕ

pub record Garbage : Type 0 where
  pub buffer : ℕ → ℕ
  pub buf : ℕ
  pub i : ℕ

-- Both constructors: `cbk` is `none` in the one without `getc_cbk`.
unfoldable pub create : Option (ℕ → ℤ) → Garbage → LzssDecoder
create cbk g = record {
  core = record {
    state = fsm_0;
    i = g.i;
    r = window_size - lookahead_size;
    buffer = λ k. if ltb k (window_size - lookahead_size) then 32 else g.buffer k;
    out = [];
  };
  buf = g.buf;
  buf_size = 0;
  in_buffer = none;
  available = 0;
  get_char_cbk = cbk;
  reads = 0;
}

abbrev pub bits_required : FsmState → ℕ
bits_required fsm_0 = 1
bits_required fsm_1 = 8
bits_required fsm_2 = ei
bits_required fsm_3 = ej
bits_required fsm_eof = 0

-- The conversion of an `int` to `uint8_t`.
abbrev pub to_u8 : ℤ → ℕ
to_u8 (pos n) = n % 256
to_u8 (negsuc n) = 255 - n % 256

-- `*in_buffer` and `in_buffer++`; the empty list would be a read past the end.
abbrev pub deref : List ℕ → ℕ
deref [] = 0
deref (b ∷ bs) = b

abbrev pub advance : List ℕ → List ℕ
advance [] = []
advance (b ∷ bs) = bs

unfoldable pub getc_buffer : Option (List ℕ) → LzssDecoder → Read × LzssDecoder
getc_buffer none d = (lzss_buffer_empty, d)
getc_buffer (some bytes) d = if d.available == 0 then (lzss_buffer_empty, d) else (
  code (deref bytes),
  record d { in_buffer = some (advance bytes); available = d.available - 1 },
)

-- `get_char_cbk` is declared `std::function<uint8_t()>`, so its result is converted.
unfoldable pub getc_from : Option (ℕ → ℤ) → LzssDecoder → Read × LzssDecoder
unfolding getc_buffer
getc_from (some cbk) d = (code (to_u8 (cbk d.reads)), record d { reads = d.reads + 1 })
getc_from none d = getc_buffer d.in_buffer d

unfoldable pub getc : LzssDecoder → Read × LzssDecoder
unfolding getc_from
getc d = getc_from d.get_char_cbk d

-- `buf <<= 8; buf |= (uint8_t)c; buf_size += 8;`: the shift leaves the low eight bits clear.
abbrev pub shift_in : ℕ → LzssDecoder → LzssDecoder
shift_in c d = record d {
  buf = d.buf * 256 % u32_mod + c % 256;
  buf_size = (d.buf_size + 8) % u32_mod;
}

-- The rest of a round of the loop of `getbit`, after `getc`; `next` is the round after it.
abbrev pub next_byte :
    (LzssDecoder → Option Read × LzssDecoder) → Read × LzssDecoder → Option Read × LzssDecoder
next_byte next (code b, d) = next (shift_in b d)
next_byte next (lzss_eof, d) = (some lzss_eof, d)
next_byte next (lzss_buffer_empty, d) = (some lzss_buffer_empty, d)

-- The loop of `getbit`, on fuel; an early return is `some` of what is returned.
unfoldable pub fill : ℕ → ℕ → LzssDecoder → Option Read × LzssDecoder
fill zero n d = (none, d)
fill (suc f) n d = elim (ltb d.buf_size n) [
  | true ↦ next_byte (fill f n) (getc d)
  | false ↦ (none, d)
]

-- The first `n` bits of the bit buffer.
abbrev pub take_bits : ℕ → LzssDecoder → Read × LzssDecoder
take_bits n d =
    let k = d.buf_size - n in (code (d.buf / 2 ^ k), record d { buf = d.buf % 2 ^ k; buf_size = k })

abbrev pub finish_getbit : ℕ → Option Read × LzssDecoder → Read × LzssDecoder
finish_getbit n (some c, d) = (c, d)
finish_getbit n (none, d) = take_bits n d

-- Each round of the loop adds eight bits, so `n` rounds are enough.
unfoldable pub getbit : ℕ → LzssDecoder → Read × LzssDecoder
getbit n d = finish_getbit n (fill n n d)

abbrev pub update : (ℕ → ℕ) → ℕ → ℕ → ℕ → ℕ
update f k v m = if m == k then v else f m

-- `putc(c); buffer[r++] = c; r &= (N - 1);`
unfoldable pub put_byte : ℕ → Core → Core
put_byte c w = record w {
  out = w.out ++ (c % 256) ∷ [];
  buffer = update w.buffer w.r (c % 256);
  r = (w.r + 1) % window_size;
}

-- The loop of FSM_3: `n` rounds from `k` on.
unfoldable pub copy_bytes : ℕ → ℕ → Core → Core
copy_bytes zero k w = w
copy_bytes (suc n) k w = copy_bytes n (k + 1) (put_byte (w.buffer ((w.i + k) % window_size)) w)

-- The inner switch of `handle_state`.
unfoldable pub dispatch : FsmState → ℕ → Core → Core
dispatch fsm_0 c w = record w { state = if nonzero c then fsm_1 else fsm_2 }
dispatch fsm_1 c w = record (put_byte c w) { state = fsm_0 }
dispatch fsm_2 c w = record w { i = c; state = fsm_3 }
dispatch fsm_3 c w = record (copy_bytes (c + 2) 0 w) { state = fsm_0 }
dispatch fsm_eof c w = w

abbrev pub react : Read × LzssDecoder → Status × LzssDecoder
react (lzss_buffer_empty, d) = (not_completed, d)
react (lzss_eof, d) = (done, record d { core = record (d.core) { state = fsm_eof } })
react (code c, d) = (in_progress, record d { core = dispatch d.state c d.core })

unfoldable pub handle_state : LzssDecoder → Status × LzssDecoder
handle_state d = react (getbit (bits_required d.state) d)

abbrev pub while_in_progress :
    (LzssDecoder → Option Status × LzssDecoder) → Status × LzssDecoder → Option Status × LzssDecoder
while_in_progress next (in_progress, d) = next d
while_in_progress next (done, d) = (some done, d)
while_in_progress next (not_completed, d) = (some not_completed, d)

-- The loop of `decompress`, on fuel: `none` where the fuel runs out.
unfoldable pub run_loop : ℕ → LzssDecoder → Option Status × LzssDecoder
run_loop zero d = (none, d)
run_loop (suc f) d = while_in_progress (run_loop f) (handle_state d)

abbrev pub offer : Option (ℕ → ℤ) → Option (List ℕ) → ℕ → LzssDecoder → LzssDecoder
offer none buffer size d = record d {
  in_buffer = buffer;
  available = (d.available + size) % u32_mod;
}
offer (some cbk) buffer size d = d

unfoldable pub decompress : ℕ → Option (List ℕ) → ℕ → LzssDecoder → Option Status × LzssDecoder
decompress fuel buffer size d =
    let (res, d') = run_loop fuel (offer d.get_char_cbk buffer size d) in
    (res, record d' { in_buffer = none })
