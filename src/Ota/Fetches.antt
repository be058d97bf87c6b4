-- ===== src/Ota/Fetches.antt =====
-- The loop of `fetch` of src/ota/interface/OTAInterfaceDefault.cpp on an image that arrives in time.
use mathlib.Core.Path.{subst}
use arduino_io_tcloud.Common.{
  ℕ, ◌+◌, ◌-◌, ◌%◌, ◌<◌, ◌≡◌, refl, sym, ap, ◌∙◌, Bool, true, false, ◌||◌, ◌&&◌, Option, some, List,
  [], ◌∷◌, ◌++◌, append-nil, append_assoc, length, length-append, drop, concat, ltb, ◌==◌, ==_iff,
  if◌then◌else◌, if_both, u32_mod, arith,
}
use Prim.Native.Nat.{bit_xor}
use arduino_io_tcloud.Ota.Crc.{crc_update, crc_update-append}
use arduino_io_tcloud.Ota.Download.{
  Context, DownloadState, in_file, completed, failed, new_context, word_at, header_crc32,
  mark_completed, copy_file, parse_ota, Poll, received, FetchResult, flash_ota, ota_header_crc_fail,
  error_write_update_file_fail, conclude, is_downloading, download_time, goes_on, fetch_from,
}
use arduino_io_tcloud.Ota.Images.{
  AllFull, Reading, started, parse-file, parse-first, parse_ota-Reading, first-Reading,
}

-- Reads with the time of the end of their turn.
abbrev pub reads_of : List (List ℕ × ℕ) → List (List ℕ)
reads_of [] = []
reads_of ((b, tick) ∷ l) = b ∷ reads_of l

abbrev pub polls_of : List (List ℕ × ℕ) → List Poll
polls_of [] = []
polls_of ((b, tick) ∷ l) = received b tick ∷ polls_of l

abbrev pub IsInTime : ℕ → ℕ → Type 0
IsInTime start tick = (tick + u32_mod - start) % u32_mod < download_time

abbrev pub AllInTime : ℕ → List (List ℕ × ℕ) → Type 0
AllInTime start [] = Unit {0}
AllInTime start ((b, tick) ∷ l) = IsInTime start tick × AllInTime start l

-- The header is known, and no write has failed.
abbrev pub Sound : List ℕ → Context → Type 0
Sound h s = (s.header ≡ h) × (s.write_error ≡ false)

conclude-completed :
    (s : Context)
    → s.download_state ≡ completed
    → conclude s ≡ (
      if header_crc32 s == bit_xor s.calculated_crc32 0xffffffff
          then flash_ota
          else ota_header_crc_fail,
      record s { calculated_crc32 = bit_xor s.calculated_crc32 0xffffffff },
    )
unfolding conclude
conclude-completed s e = rw e

and_true : (b : Bool) → (b && true) ≡ b
and_true true = refl
and_true false = refl

module _ (magic content : ℕ) (fails : List (List ℕ) → Bool)
    (never : (chunks : List (List ℕ)) → fails chunks ≡ false) where
  copy_file-Sound :
      (h buffer : List ℕ) (cursor : ℕ) (s : Context)
      → Sound h s
      → Sound h (copy_file content fails buffer cursor s)
  unfolding copy_file
  copy_file-Sound h buffer cursor s (e, w) =
      let rest = drop cursor buffer in
      let s' : Context = record s {
        images = s.images ++ rest ∷ [];
        write_error = s.write_error || fails (s.images ++ rest ∷ []);
        calculated_crc32 = crc_update s.calculated_crc32 rest;
        downloaded_size = (s.downloaded_size + length buffer) % u32_mod;
      } in
      let r : Sound h s' =
        (e, ap (λ b. b || fails (s.images ++ rest ∷ [])) w ∙ never (s.images ++ rest ∷ [])) in
      let m = mark_completed content s' in
      let r' : Sound h m =
        if_both (Sound h) (s'.downloaded_size == content) (record s' { download_state = completed })
          s' r r in
      if_both (Sound h) (ltb content m.downloaded_size) (record m { download_state = failed }) m r'
        r'

  parse_ota-Sound :
      (h b : List ℕ) (s : Context)
      → 0 < length b
      → s.download_state ≡ in_file
      → Sound h s
      → Sound h (parse_ota magic content fails b s)
  parse_ota-Sound h b s f st w =
      subst (Sound h) (sym (parse-file magic content fails b s f st)) (copy_file-Sound h b 0 s w)

  -- What `fetch` does after a read.
  abbrev pub after_read : ℕ → ℕ → List Poll → Context → Option (FetchResult × Context)
  after_read start tick polls s =
      if s.write_error
      then some (error_write_update_file_fail, s)
      else if goes_on start tick s
      then fetch_from magic content fails start polls s
      else some (conclude s)

  after_read-state :
      (start tick : ℕ) (polls : List Poll) (h : List ℕ) (s : Context) (st : DownloadState)
      → Sound h s
      → s.download_state ≡ st
      → IsInTime start tick
      → after_read start tick polls s ≡ (
          if is_downloading st
          then fetch_from magic content fails start polls s
          else some (conclude s))
  after_read-state start tick polls h s st (e, w) f k =
      let rest = fetch_from magic content fails start polls s in
      let in_time : ltb ((tick + u32_mod - start) % u32_mod) download_time ≡ true = ground arith in
      ap
        (λ b.
          if b
          then some (error_write_update_file_fail, s)
          else if goes_on start tick s
          then rest
          else some (conclude s))
        w
      ∙ ap
          (λ x.
            if is_downloading x && ltb ((tick + u32_mod - start) % u32_mod) download_time
            then rest
            else some (conclude s))
          f
      ∙ ap (λ b. if is_downloading st && b then rest else some (conclude s)) in_time
      ∙ ap (λ b. if b then rest else some (conclude s)) (and_true (is_downloading st))

  -- A fetch whose first reads brought `image`, and its last ones the rest.
  fetched :
      (start tick crc size : ℕ) (image h : List ℕ) (l : List (List ℕ × ℕ)) (s : Context)
      → Reading magic content fails crc image size s
      → Sound h s
      → AllFull (reads_of l)
      → IsInTime start tick
      → AllInTime start l
      → size + length (concat (reads_of l)) ≡ content
      → content < u32_mod
      → (z : Context) × (after_read start tick (polls_of l) s ≡ some (conclude z))
        × Reading magic content fails crc (image ++ concat (reads_of l)) content z
        × Sound h z
  unfolding fetch_from
  fetched start tick crc size image h [] s r w f k ks e c =
      let whole : size ≡ content = omega arith in
      let full : (size == content) ≡ true = (==_iff size content).1 whole in
      let st = r.at_state ∙ ap (λ b. if b then completed else in_file) full in
      (
        s,
        after_read-state start tick [] h s completed w st k,
        subst (λ n. Reading magic content fails crc (image ++ []) n s) whole
            (subst (λ l. Reading magic content fails crc l size s) (sym (append-nil image)) r),
        w,
      )
  fetched start tick crc size image h ((b, next_tick) ∷ l) s r w f k ks e c =
      let n = length-append b (concat (reads_of l)) in
      let early : (size == content) ≡ false = ground (arith, n, f.0) in
      let st = r.at_state ∙ ap (λ b. if b then completed else in_file) early in
      let s' = parse_ota magic content fails b s in
      let r' =
        parse_ota-Reading magic content fails crc image size b s r f.0 (omega (arith, n)) c in
      let w' = parse_ota-Sound h b s f.0 st w in
      let o =
        fetched start next_tick crc (size + length b) (image ++ b) h l s' r' w' f.1 ks.0 ks.1
          (omega (arith, n)) c in
      (
        o.0,
        after_read-state start tick (polls_of ((b, next_tick) ∷ l)) h s in_file w st k ∙ o.1,
        subst (λ x. Reading magic content fails crc x content o.0)
            (append_assoc image b (concat (reads_of l))) o.2,
        o.3,
      )

  -- If no write to the flash fails, and an image of the announced length comes in time for one call,
  -- its first read with the header, the right magic number and at least one byte more, then `fetch`
  -- returns, however the image was cut: it orders to flash the image if the checksum in the header is
  -- that of the bytes from the magic number on, and else reports a wrong checksum. The decoder was
  -- given the bytes behind the header.
  pub fetch_from-flash_ota :
      (start tick : ℕ) (h t : List ℕ) (l : List (List ℕ × ℕ))
      → length h ≡ 20
      → 0 < length t
      → word_at h 8 ≡ magic
      → AllFull (reads_of l)
      → IsInTime start tick
      → AllInTime start l
      → 20 + length t + length (concat (reads_of l)) ≡ content
      → content < u32_mod
      → let image = t ++ concat (reads_of l) in
        let sum = bit_xor (crc_update 0xffffffff (drop 8 h ++ image)) 0xffffffff in
        (z : Context) × (fetch_from magic content fails start
            (received (h ++ t) tick ∷ polls_of l)
            new_context
          ≡ some (if word_at h 4 == sum then flash_ota else ota_header_crc_fail, z))
        × (concat z.images ≡ image)
  unfolding fetch_from new_context
  fetch_from-flash_ota start tick h t l e f g full k ks size c =
      let crc = crc_update 0xffffffff (drop 8 h) in
      let image = t ++ concat (reads_of l) in
      let s = parse_ota magic content fails (h ++ t) new_context in
      let r = first-Reading magic content fails h t e f g (omega arith) c in
      let w : Sound h s =
        subst (Sound h) (sym (parse-first magic content fails h t e f g))
          (copy_file-Sound h (h ++ t) 20 (started magic content fails h) (refl, refl)) in
      let o = fetched start tick crc (20 + length t) t h l s r w full k ks size c in
      let z = o.0 in
      let whole : z.download_state ≡ completed =
        o.2.at_state
        ∙ ap (λ b. if b then completed else in_file) ((==_iff content content).1 refl) in
      let sum : z.calculated_crc32 ≡ crc_update 0xffffffff (drop 8 h ++ image) =
        o.2.at_crc ∙ sym (crc_update-append 0xffffffff (drop 8 h) image) in
      (
        record z { calculated_crc32 = bit_xor z.calculated_crc32 0xffffffff },
        o.1
            ∙ ap some (conclude-completed z whole)
            ∙ ap
                (λ b. some (
                  if b then flash_ota else ota_header_crc_fail,
                  record z { calculated_crc32 = bit_xor z.calculated_crc32 0xffffffff },
                ))
                (ap (λ x. word_at x 4 == bit_xor z.calculated_crc32 0xffffffff) o.3.0
                  ∙ ap (λ y. word_at h 4 == bit_xor y 0xffffffff) sum),
        o.2.at_images,
      )
