-- ===== src/TimeService/Ntp.antt =====
-- src/utility/time/NTPUtils.cpp: the request to the time server, the wait for its answer, and the
-- time in it. A `udp.parsePacket()` of the wait is a poll: `millis()` and whether a packet is there.
use arduino_io_tcloud.Common.{
  ℕ, zero, suc, ◌+◌, ◌-◌, ◌*◌, ◌/◌, ◌%◌, ◌<◌, ◌≡◌, refl, ap, ◌∙◌, inl, inr, Bool, true, false, not,
  ◌&&◌, Option, none, some, List, [], ◌∷◌, ◌++◌, leb, if◌then◌else◌, Bool-cases, length, u32_mod,
  arith,
}

abbrev pub ntp_packet_size : ℕ
ntp_packet_size = 48

abbrev pub ntp_timeout_ms : ℕ
ntp_timeout_ms = 1000

abbrev pub zeros : ℕ → List ℕ
zeros zero = []
zeros (suc n) = 0 ∷ zeros n

-- `sendNTPpacket`: what is written to the server.
unfoldable pub send_ntp_packet : List ℕ
send_ntp_packet = 227 ∷ 0 ∷ 6 ∷ 236 ∷ zeros 8 ++ 49 ∷ 78 ∷ 49 ∷ 52 ∷ zeros 32

-- The loop: whether it ended by the timeout; none if it has not ended after these polls. A packet is
-- not asked for after the timeout.
unfoldable pub wait : ℕ → List (ℕ × Bool) → Option Bool
wait start [] = none
wait start ((tick, packet) ∷ polls) =
    let rest = wait start polls in
    let is_timeout = leb ntp_timeout_ms ((tick + u32_mod - start) % u32_mod) in
    if not is_timeout && not packet then rest else some is_timeout

-- The byte at a place of the buffer; past the end of the packet it is what lay in memory.
abbrev pub byte_at : (ℕ → ℕ) → List ℕ → ℕ → ℕ
byte_at memory [] n = memory n
byte_at memory (b ∷ bytes) zero = b
byte_at memory (b ∷ bytes) (suc n) = byte_at memory bytes n

-- `word`.
abbrev pub word : ℕ → ℕ → ℕ
word h l = h * 256 + l

-- The time in a packet.
unfoldable pub packet_time : (ℕ → ℕ) → List ℕ → ℕ
packet_time memory packet =
    let high_word = word (byte_at memory packet 40) (byte_at memory packet 41) in
    let low_word = word (byte_at memory packet 42) (byte_at memory packet 43) in
    let secs_since_1900 = high_word * 65536 + low_word in
    (secs_since_1900 + u32_mod - 2208988800) % u32_mod

abbrev pub answered : (ℕ → ℕ) → List ℕ → Option Bool → Option ℕ
answered memory packet none = none
answered memory packet (some true) = some 0
answered memory packet (some false) = some (packet_time memory packet)

-- `getTime`, with the polls of its loop and the packet that comes.
unfoldable pub get_time : (ℕ → ℕ) → ℕ → List (ℕ × Bool) → List ℕ → Option ℕ
get_time memory start polls packet = answered memory packet (wait start polls)

-- The packet of a server at the Unix time `t`: its transmit timestamp counts from 1900.
abbrev pub era_seconds : ℕ → ℕ
era_seconds t = (t + 2208988800) % u32_mod

abbrev pub server_packet : List ℕ → List ℕ → ℕ → List ℕ
server_packet header rest t =
    let s = era_seconds t in
    header ++ s / 16777216 ∷ s / 65536 % 256 ∷ s / 256 % 256 ∷ s % 256 ∷ rest

byte_at-append :
    (memory : ℕ → ℕ) (xs ys : List ℕ) (n k : ℕ)
    → n ≡ length xs + k
    → byte_at memory (xs ++ ys) n ≡ byte_at memory ys k
byte_at-append memory [] ys n k h = ap (byte_at memory ys) (omega arith)
byte_at-append memory (x ∷ xs) ys zero k h = absurd (omega arith)
byte_at-append memory (x ∷ xs) ys (suc n) k h = byte_at-append memory xs ys n k (omega arith)

-- Four bytes of a 32-bit number.
bytes_of :
    (s : ℕ)
    → s < u32_mod
    → (s / 16777216 * 256 + s / 65536 % 256) * 65536 + (s / 256 % 256 * 256 + s % 256) ≡ s
bytes_of s h = omega arith

packet_time-server :
    (memory : ℕ → ℕ) (header rest : List ℕ) (t : ℕ)
    → length header ≡ 40
    → t < u32_mod
    → packet_time memory (server_packet header rest t) ≡ t
unfolding packet_time
packet_time-server memory header rest t h k =
    let s = era_seconds t in
    let bytes = s / 16777216 ∷ s / 65536 % 256 ∷ s / 256 % 256 ∷ s % 256 ∷ rest in
    rw
      (
        byte_at-append memory header bytes 40 0 (omega arith),
        byte_at-append memory header bytes 41 1 (omega arith),
        byte_at-append memory header bytes 42 2 (omega arith),
        byte_at-append memory header bytes 43 3 (omega arith),
        bytes_of s (omega arith),
      )
      (omega arith)

-- Polls with no packet before the timeout.
abbrev pub AreEmpty : ℕ → List (ℕ × Bool) → Type 0
AreEmpty start [] = Unit {0}
AreEmpty start ((tick, packet) ∷ polls) =
    ((tick + u32_mod - start) % u32_mod < ntp_timeout_ms) × (packet ≡ false) × AreEmpty start polls

wait-append :
    (start : ℕ) (polls rest : List (ℕ × Bool))
    → AreEmpty start polls
    → wait start (polls ++ rest) ≡ wait start rest
unfolding wait
wait-append start [] rest h = refl
wait-append start ((tick, packet) ∷ polls) rest (e, f, h) =
    let early : leb ntp_timeout_ms ((tick + u32_mod - start) % u32_mod) ≡ false = ground arith in
    rw (early, f) (wait-append start polls rest h)

-- The first poll that finds a packet.
wait-found :
    (start tick : ℕ) (rest : List (ℕ × Bool))
    → wait start ((tick, true) ∷ rest)
      ≡ some (leb ntp_timeout_ms ((tick + u32_mod - start) % u32_mod))
unfolding wait
wait-found start tick rest =
    elim (Bool-cases (leb ntp_timeout_ms ((tick + u32_mod - start) % u32_mod))) [
      | inl e ↦ rw e
      | inr e ↦ rw e
    ]

-- If the server's packet comes within the timeout, `getTime` returns the time that the server put
-- into it, in either era of the protocol, and 0 if it comes later.
pub get_time-server :
    (memory : ℕ → ℕ) (start tick t : ℕ) (polls later : List (ℕ × Bool)) (header rest : List ℕ)
    → AreEmpty start polls
    → length header ≡ 40
    → t < u32_mod
    → get_time memory start (polls ++ (tick, true) ∷ later) (server_packet header rest t)
      ≡ some (if leb ntp_timeout_ms ((tick + u32_mod - start) % u32_mod) then 0 else t)
unfolding get_time
get_time-server memory start tick t polls later header rest h k l =
    ap (answered memory (server_packet header rest t))
      (wait-append start polls ((tick, true) ∷ later) h ∙ wait-found start tick later)
    ∙ outcome (leb ntp_timeout_ms ((tick + u32_mod - start) % u32_mod))
  where
    outcome :
        (b : Bool)
        → answered memory (server_packet header rest t) (some b) ≡ some (if b then 0 else t)
    outcome true = refl
    outcome false = ap some (packet_time-server memory header rest t k l)
