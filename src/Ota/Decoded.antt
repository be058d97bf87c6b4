-- ===== src/Ota/Decoded.antt =====
-- From `fetch` of src/ota/interface/OTAInterfaceDefault.cpp to the decoder of
-- src/utility/lzss/lzss.cpp: the chunks that are in its log, one for each read, are fed to a fresh
-- decoder.
use arduino_io_tcloud.Common.{
  ℕ, ◌+◌, ◌<◌, ◌≡◌, sym, ap, ◌∙◌, Bool, false, some, List, [], ◌∷◌, ◌++◌, length, length-append,
  drop, concat, ◌==◌, if◌then◌else◌, none, u32_mod, arith,
}
use Prim.Native.Nat.{bit_xor}
use mathlib.Core.Path.{subst}
use mathlib.Core.List.{reverse}
use arduino_io_tcloud.Lzss.Reader.{AreBytes}
use arduino_io_tcloud.Lzss.{Garbage, create}
use arduino_io_tcloud.Lzss.Resume.{feed, feed-text, AreChunks}
use arduino_io_tcloud.Lzss.Tokens.{text_of_bytes}
use arduino_io_tcloud.Ota.Crc.{crc_update}
use arduino_io_tcloud.Ota.Download.{
  Context, new_context, word_at, received, flash_ota, ota_header_crc_fail, fetch_from,
}
use arduino_io_tcloud.Ota.Images.{AllFull}
use arduino_io_tcloud.Ota.Fetches.{reads_of, polls_of, IsInTime, AllInTime, fetch_from-flash_ota}

append-AreBytes : (xs ys : List ℕ) → AreBytes (xs ++ ys) → AreBytes xs × AreBytes ys
append-AreBytes [] ys h = (tt, h)
append-AreBytes (x ∷ xs) ys h = let k = append-AreBytes xs ys h.1 in ((h.0, k.0), k.1)

concat-AreChunks :
    (cs : List (List ℕ)) → AreBytes (concat cs) → length (concat cs) < u32_mod → AreChunks cs
concat-AreChunks [] b h = tt
concat-AreChunks (c ∷ cs) b h =
    let l = length-append c (concat cs) in
    let k = append-AreBytes c (concat cs) b in
    (k.0, omega (arith, l), concat-AreChunks cs k.1 (omega (arith, l)))

module _ (magic content : ℕ) (fails : List (List ℕ) → Bool)
    (never : (chunks : List (List ℕ)) → fails chunks ≡ false) where
  -- If no write to the flash fails, and an image of the announced length comes in time for one call,
  -- its first read with the header, the right magic number and at least one byte more, then what the
  -- decoder of the download has written, when `fetch` orders to flash it or reports a wrong checksum,
  -- is the text of the tokens in the bits behind the header, however the image was cut. The decoder
  -- is in buffer mode, and its `buf` starts out as 0.
  pub fetch_from-text_of_bytes :
      (start tick : ℕ) (h t : List ℕ) (l : List (List ℕ × ℕ)) (g : Garbage)
      → length h ≡ 20
      → 0 < length t
      → word_at h 8 ≡ magic
      → AllFull (reads_of l)
      → IsInTime start tick
      → AllInTime start l
      → 20 + length t + length (concat (reads_of l)) ≡ content
      → content < u32_mod
      → AreBytes (t ++ concat (reads_of l))
      → g.buf ≡ 0
      → let image = t ++ concat (reads_of l) in
        let sum = bit_xor (crc_update 0xffffffff (drop 8 h ++ image)) 0xffffffff in
        (z : Context) × (fetch_from magic content fails start
            (received (h ++ t) tick ∷ polls_of l)
            new_context
          ≡ some (if word_at h 4 == sum then flash_ota else ota_header_crc_fail, z))
        × ((feed (create none g) z.images).out ≡ reverse (text_of_bytes g image))
  fetch_from-text_of_bytes start tick h t l g e f m full k ks size c bytes b =
      let o =
        fetch_from-flash_ota magic content fails never start tick h t l e f m full k ks size c in
      let n = length-append t (concat (reads_of l)) in
      let short : length (concat o.0.images) < u32_mod = omega (arith, n, ap length o.2) in
      (
        o.0,
        o.1,
        feed-text g o.0.images b
              (concat-AreChunks o.0.images (subst AreBytes (sym o.2) bytes) short)
            ∙ ap (λ x. reverse (text_of_bytes g x)) o.2,
      )
