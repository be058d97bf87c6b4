-- ===== src/Witnesses/Downloads.antt =====
-- A download that src/utility/lzss/lzss.cpp decodes to "AAA": a literal, and a copy of two bytes.
use arduino_io_tcloud.Common.{ℕ, ◌≡◌, ◌≢◌, refl, List, [], ◌∷◌, none, some, negsuc, length, arith}
use arduino_io_tcloud.Lzss.{
  Garbage, LzssDecoder, done, create, decompress, handle_state, run_loop, getbit, fill, getc,
  dispatch, copy_bytes, put_byte,
}
use arduino_io_tcloud.Lzss.Bits.{bits, pull, pull_acc}
use arduino_io_tcloud.Lzss.Tokens.{
  text_of_bytes, parse_token, parse_literal, parse_copy, token_text, byte_at,
}
use arduino_io_tcloud.Lzss.Stream.{Decompressed, decompress-Decompressed, fuel_for}
use arduino_io_tcloud.Lzss.Resume.{feed, create-Ready, feed-text}
use arduino_io_tcloud.Lzss.Faults.{callback-decompress, decompress-ne-done}

abbrev pub zeros : Garbage
zeros = record { buffer = λ p. 0; buf = 0; i = 0 }

abbrev rubbish : Garbage
rubbish = record { buffer = λ p. 0; buf = 0x5a5a_5a5a; i = 0 }

abbrev download : List ℕ
download = 0xa0 ∷ 0xbf ∷ 0x78 ∷ 0x00 ∷ []

abbrev chunks : List (List ℕ)
chunks = (0xa0 ∷ []) ∷ (0xbf ∷ 0x78 ∷ []) ∷ (0x00 ∷ []) ∷ []

decoded : (decompress 100 (some download) 4 (create none zeros)).1.out ≡ 65 ∷ 65 ∷ 65 ∷ []
unfolding decompress create run_loop handle_state getbit fill getc dispatch copy_bytes put_byte
decoded = refl

feed-text_example : (feed (create none zeros) chunks).out ≡ 65 ∷ 65 ∷ 65 ∷ []
unfolding text_of_bytes parse_token pull pull_acc bits parse_literal parse_copy token_text byte_at
feed-text_example = feed-text zeros chunks refl (omega arith)

decompress-Decompressed_example :
    Decompressed
      (create none zeros)
      download
      (decompress (fuel_for download) (some download) (length download) (create none zeros))
decompress-Decompressed_example =
    decompress-Decompressed (create none zeros) download (create-Ready zeros refl) (omega arith)
      (omega arith)

-- A callback that says -1 (end of file) from the start.
callback-decompress_example :
    (decompress 1000 none 0 (create (some (λ n. negsuc 0)) zeros)).0 ≡ none
unfolding create
callback-decompress_example =
    callback-decompress 1000 0 none (λ n. negsuc 0) (create (some (λ n. negsuc 0)) zeros) refl

decompress-ne-done_example : (decompress 100 (some download) 4 (create none zeros)).0 ≢ some done
decompress-ne-done_example = decompress-ne-done 100 4 (some download) (create none zeros)

abbrev offered : LzssDecoder
offered = record (create none zeros) { in_buffer = some download; available = 4 }
