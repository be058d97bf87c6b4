-- ===== src/Ota/Download.antt =====
-- The download of src/ota/interface/OTAInterfaceDefault.cpp: `parseOta` takes the bytes of a read
-- apart into header and image, and `fetch` reads for two seconds. What the connection answers is a
-- list of `Poll`s; `content_length` and the magic number of the board are arguments.
use arduino_io_tcloud.Common.{
  ℕ, zero, suc, ◌+◌, ◌-◌, ◌*◌, ◌%◌, Bool, true, false, ◌&&◌, ◌||◌, Option, none, some, List, [],
  ◌∷◌, ◌++◌, length, take, drop, ltb, ◌==◌, min, if◌then◌else◌, u32_mod,
}
use Prim.Native.Nat.{bit_xor}
use arduino_io_tcloud.Ota.Crc.{crc_update, entry}

pub data DownloadState : Type 0 where
  in_header in_file completed magic_number_mismatch failed : DownloadState

abbrev pub header_size : ℕ
header_size = 20

-- `Context`. `header` is what was copied to the header and behind it, `images` what the decoder was
-- given, call by call.
pub record Context : Type 0 where
  pub download_state : DownloadState
  pub calculated_crc32 : ℕ
  pub header : List ℕ
  pub header_copied_bytes : ℕ
  pub downloaded_size : ℕ
  pub write_error : Bool
  pub images : List (List ℕ)

unfoldable pub new_context : Context
new_context = record {
  download_state = in_header;
  calculated_crc32 = 0xffffffff;
  header = [];
  header_copied_bytes = 0;
  downloaded_size = 0;
  write_error = false;
  images = [];
}

-- A `uint32_t` of the header, whose bytes come lowest first.
abbrev pub word_at : List ℕ → ℕ → ℕ
word_at bytes n =
    entry bytes n
    + entry bytes (n + 1) * 256
    + entry bytes (n + 2) * 65536
    + entry bytes (n + 3) * 16777216

abbrev pub header_crc32 : Context → ℕ
header_crc32 s = word_at s.header 4

abbrev pub magic_number : Context → ℕ
magic_number s = word_at s.header 8

module _ (ota_magic_number : ℕ) where
  -- The header is complete: its checksum starts at the magic number.
  unfoldable pub finish_header : Context → Context
  finish_header s =
      let s' = record s {
        download_state = in_file;
        calculated_crc32 = crc_update s.calculated_crc32 (drop 8 (take header_size s.header));
      } in
      if magic_number s == ota_magic_number
      then s'
      else record s' { download_state = magic_number_mismatch }

  -- The case `OtaDownloadHeader`: the bytes are copied from the start of the buffer.
  unfoldable pub copy_header : List ℕ → Context → Context
  copy_header buffer s =
      let copied = if ltb (length buffer) header_size then length buffer else header_size in
      let s' = record s {
        header = s.header ++ take copied buffer;
        header_copied_bytes = (s.header_copied_bytes + copied) % u32_mod;
      } in
      if s'.header_copied_bytes == header_size then finish_header s' else s'

module _ (content_length : ℕ) where
  -- The size is compared with the content length, in two tests.
  abbrev pub mark_completed : Context → Context
  mark_completed s =
      if s.downloaded_size == content_length then record s { download_state = completed } else s

  abbrev pub mark_failed : Context → Context
  mark_failed s =
      if ltb content_length s.downloaded_size then record s { download_state = failed } else s

-- `flash_fails` says whether a write to the flash has failed after these calls of the decoder.
module _ (content_length : ℕ) (flash_fails : List (List ℕ) → Bool) where
  -- The case `OtaDownloadFile`, with the cursor at a place of the buffer. The report every ten seconds,
  -- which changes nothing here, is left out.
  unfoldable pub copy_file : List ℕ → ℕ → Context → Context
  copy_file buffer cursor s =
      let rest = drop cursor buffer in
      mark_failed content_length (
        mark_completed content_length (record s {
          images = s.images ++ rest ∷ [];
          write_error = s.write_error || flash_fails (s.images ++ rest ∷ []);
          calculated_crc32 = crc_update s.calculated_crc32 rest;
          downloaded_size = (s.downloaded_size + length buffer) % u32_mod;
        }))

module _ (ota_magic_number content_length : ℕ) (flash_fails : List (List ℕ) → Bool) where
  -- A turn of the loop at a place before the end of the buffer: the place of the next one, or none
  -- for a return.
  unfoldable pub turn : List ℕ → ℕ → DownloadState → Context → Option ℕ × Context
  turn buffer cursor in_header s =
      let s' = copy_header ota_magic_number buffer s in
      (
        elim s'.download_state [
          | magic_number_mismatch ↦ none
          | _ ↦ some (cursor + min (length buffer) header_size)
        ],
        s',
      )
  turn buffer cursor in_file s =
      (some (length buffer), copy_file content_length flash_fails buffer cursor s)
  turn buffer cursor completed s = (none, s)
  turn buffer cursor magic_number_mismatch s = (none, record s { download_state = failed })
  turn buffer cursor failed s = (none, record s { download_state = failed })

  abbrev pub next : (ℕ → Context → Context) → Option ℕ × Context → Context
  next go (none, s) = s
  next go (some cursor, s) = go cursor s

  -- The loop; each turn moves the cursor, so that the bytes of the buffer are enough turns.
  unfoldable pub loop : ℕ → List ℕ → ℕ → Context → Context
  loop zero buffer cursor s = s
  loop (suc n) buffer cursor s =
      if ltb cursor (length buffer)
      then next (loop n buffer) (turn buffer cursor s.download_state s)
      else s

  unfoldable pub parse_ota : List ℕ → Context → Context
  parse_ota buffer s = loop (length buffer) buffer 0 s

-- A turn of the loop of `fetch`: the client is not connected, has nothing, returns an error or some
-- bytes; `millis()` is read at its end.
pub data Poll : Type 0 where
  disconnected read_error : Poll
  unavailable : ℕ → Poll
  received : List ℕ → ℕ → Poll

pub data FetchResult : Type 0 where
  fetch flash_ota ota_header_crc_fail ota_download_fail : FetchResult
  ota_header_magic_number_fail error_write_update_file_fail : FetchResult

-- What follows the loop: the checksum is finalised by inverting its bits.
unfoldable pub conclude : Context → FetchResult × Context
conclude s = elim s.download_state [
  | completed ↦
      let s' = record s { calculated_crc32 = bit_xor s.calculated_crc32 0xffffffff } in
      (if header_crc32 s' == s'.calculated_crc32 then flash_ota else ota_header_crc_fail, s')
  | failed ↦ (ota_download_fail, s)
  | magic_number_mismatch ↦ (ota_header_magic_number_fail, s)
  | in_header ↦ (fetch, s)
  | in_file ↦ (fetch, s)
]

abbrev pub is_downloading : DownloadState → Bool
is_downloading in_header = true
is_downloading in_file = true
is_downloading _ = false

abbrev pub download_time : ℕ
download_time = 2000

-- Whether the loop goes on.
abbrev pub goes_on : ℕ → ℕ → Context → Bool
goes_on start tick s =
    is_downloading s.download_state && ltb ((tick + u32_mod - start) % u32_mod) download_time

module _ (ota_magic_number content_length : ℕ) (flash_fails : List (List ℕ) → Bool) where
  -- `fetch`, begun at `start`; none if it has not returned after these polls.
  unfoldable pub fetch_from : ℕ → List Poll → Context → Option (FetchResult × Context)
  fetch_from start [] s = none
  fetch_from start (disconnected ∷ polls) s = some (ota_download_fail, s)
  fetch_from start (read_error ∷ polls) s = some (ota_download_fail, s)
  fetch_from start (unavailable tick ∷ polls) s =
      let rest = fetch_from start polls s in
      if goes_on start tick s then rest else some (conclude s)
  fetch_from start (received bytes tick ∷ polls) s =
      let s' = parse_ota ota_magic_number content_length flash_fails bytes s in
      let rest = fetch_from start polls s' in
      if s'.write_error
      then some (error_write_update_file_fail, s')
      else if goes_on start tick s'
      then rest
      else some (conclude s')
