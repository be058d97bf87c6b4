-- ===== src/Witnesses/Updates.antt =====
-- Updates over the air: an image in three reads, and the states of the process.
use Prim.Native.Nat.{bit_xor}
use arduino_io_tcloud.Common.{
  ◌==◌, if◌then◌else◌, ℕ, ◌+◌, ◌≡◌, refl, Bool, true, false, none, some, inr, List, [], ◌∷◌, ◌++◌,
  concat, drop, ℤ, arith,
}
use arduino_io_tcloud.Lzss.{create as lzss_decoder}
use arduino_io_tcloud.Lzss.Bits.{bits, pull, pull_acc}
use arduino_io_tcloud.Lzss.Tokens.{
  text_of_bytes, parse_token, parse_literal, parse_copy, token_text, byte_at,
}
use arduino_io_tcloud.Lzss.Resume.{feed}
use arduino_io_tcloud.Witnesses.Downloads.{zeros}
use arduino_io_tcloud.Ota.Decoded.{fetch_from-text_of_bytes}
use arduino_io_tcloud.Ota.{
  Process, Board, OtaContext, other_message, create, idle, fetch, start_ota, reboot, flash_ota,
  ota_available, failure, approve_ota, update, handle_message,
}
use arduino_io_tcloud.Ota.Crc.{crc_table, crc_update, entry, entry-crc_table}
use arduino_io_tcloud.Ota.Download.{
  in_file, new_context, Context, fetch_from, received, flash_ota as flash_image, word_at,
  ota_header_crc_fail,
}
use arduino_io_tcloud.Ota.Fetches.{fetch_from-flash_ota}
use arduino_io_tcloud.Ota.Images.{parse_all}
use arduino_io_tcloud.Ota.Splits.{parse_all-waits}
use arduino_io_tcloud.Ota.Approval.{turns, approve-start}
use arduino_io_tcloud.Ota.Failures.{Reported, failure-idle}
use arduino_io_tcloud.Ota.Reports.{IsOrdered, reports, reports-IsOrdered}

entry-crc_table_example : entry crc_table 255 ≡ 0x2d02ef8d
entry-crc_table_example = entry-crc_table 255 (omega arith)

-- A header with the magic number 0x23418057.
abbrev header : List ℕ
header =
    5 ∷ 0 ∷ 0 ∷ 0 ∷ 1 ∷ 2 ∷ 3 ∷ 4 ∷ 0x57 ∷ 0x80 ∷ 0x41 ∷ 0x23 ∷ 0 ∷ 0 ∷ 0 ∷ 0 ∷ 0 ∷ 0 ∷ 0 ∷ 0 ∷ []

abbrev sound : List (List ℕ) → Bool
sound chunks = false

-- Three reads, the last after the clock has wrapped around.
fetch_from-flash_ota_example :
    (z : Context) × (fetch_from 0x23418057 25 sound 4294966296
        (received (header ++ 7 ∷ []) 4294966396
          ∷ received (8 ∷ 9 ∷ []) 4294967295
          ∷ received (10 ∷ 11 ∷ []) 5
          ∷ [])
        new_context
      ≡ some (
        if word_at header 4
              == bit_xor
                  (crc_update 0xffffffff (drop 8 header ++ 7 ∷ 8 ∷ 9 ∷ 10 ∷ 11 ∷ []))
                  0xffffffff
            then flash_image
            else ota_header_crc_fail,
        z,
      ))
    × (concat z.images ≡ 7 ∷ 8 ∷ 9 ∷ 10 ∷ 11 ∷ [])
fetch_from-flash_ota_example =
    fetch_from-flash_ota 0x23418057 25 sound (λ chunks. refl) 4294966296 4294966396 header (7 ∷ [])
      ((8 ∷ 9 ∷ [], 4294967295) ∷ (10 ∷ 11 ∷ [], 5) ∷ []) refl (omega arith) refl
      (omega arith, (omega arith, tt)) (omega arith) (omega arith, (omega arith, tt)) refl
      (omega arith)

-- Three times the letter A, in 31 bits.
fetch_from-text_of_bytes_example :
    (z : Context) × (fetch_from 0x23418057 24 sound 0
        (received (header ++ 0xa0 ∷ []) 100
          ∷ received (0xbf ∷ 0x78 ∷ []) 200
          ∷ received (0x00 ∷ []) 300
          ∷ [])
        new_context
      ≡ some (
        if word_at header 4
              == bit_xor
                  (crc_update 0xffffffff (drop 8 header ++ 0xa0 ∷ 0xbf ∷ 0x78 ∷ 0x00 ∷ []))
                  0xffffffff
            then flash_image
            else ota_header_crc_fail,
        z,
      ))
    × ((feed (lzss_decoder none zeros) z.images).out ≡ 65 ∷ 65 ∷ 65 ∷ [])
unfolding text_of_bytes parse_token pull pull_acc bits parse_literal parse_copy token_text byte_at
fetch_from-text_of_bytes_example =
    fetch_from-text_of_bytes 0x23418057 24 sound (λ chunks. refl) 0 100 header (0xa0 ∷ [])
      ((0xbf ∷ 0x78 ∷ [], 200) ∷ (0x00 ∷ [], 300) ∷ []) zeros refl (omega arith) refl
      (omega arith, (omega arith, tt)) (omega arith) (omega arith, (omega arith, tt)) refl
      (omega arith) (omega arith) refl

parse_all-waits_example :
    let s = parse_all 0x23418057 22 sound (header ∷ (8 ∷ 9 ∷ []) ∷ []) new_context in
    (s.download_state ≡ in_file) × (s.downloaded_size + 20 ≡ 22)
parse_all-waits_example =
    parse_all-waits 0x23418057 22 sound header ((8 ∷ 9 ∷ []) ∷ []) refl refl (omega arith, tt) refl
      (omega arith)

abbrev board : Board
board = record {
  is_ota_capable = true;
  sha256 = [];
  time = 1700000000;
  resume = λ msg. idle;
  start_ota = fetch;
  fetch = flash_ota;
  flash_ota = reboot;
  reboot = reboot;
}

abbrev offer : OtaContext
offer = record { id = 1 ∷ []; url = "https://a"; initial_sha256 = []; final_sha256 = [] }

abbrev offered : Process
offered = record create {
  state = ota_available;
  previous_state = idle;
  context = some offer;
  approval_required = true;
}

approve-start_example :
    let waiting = turns ((board, none) ∷ (board, some other_message) ∷ []) offered in
    let started = update board (approve_ota waiting) in
    (waiting.state ≡ ota_available) × (started.state ≡ start_ota) × (started.approved ≡ false)
unfolding create
approve-start_example =
    approve-start ((board, none) ∷ (board, some other_message) ∷ []) board offered
      (record { is_available = refl; is_required = refl; not_approved = refl })

abbrev broken : Process
broken = record offered { state = failure 11; previous_state = fetch }

failure-idle_example :
    let s = handle_message board none broken in
    (s.state ≡ idle) × (s.context ≡ none) × Reported board (ℤ.negsuc 11) broken s
failure-idle_example = failure-idle board none (ℤ.negsuc 11) broken (inr (11, refl, refl))

-- Two reports in one second and one in the next.
reports-IsOrdered_example :
    IsOrdered 3 (reports ((100, ℤ.pos 0) ∷ (100, ℤ.pos 1) ∷ (101, ℤ.pos 2) ∷ []) offered)
unfolding create
reports-IsOrdered_example =
    reports-IsOrdered 0 ((100, ℤ.pos 0) ∷ (100, ℤ.pos 1) ∷ (101, ℤ.pos 2) ∷ []) offered
      (omega arith, (omega arith, (omega arith, tt))) (omega arith)
      (record { counted = omega arith; ascending = tt })
