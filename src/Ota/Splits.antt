-- ===== src/Ota/Splits.antt =====
-- Where the header of an image ends at the end of a read, or is cut by it, `parseOta` of
-- src/ota/interface/OTAInterfaceDefault.cpp loses count.
use arduino_io_tcloud.Common.{
  ℕ, ◌+◌, ◌<◌, ◌≡◌, refl, sym, ap, ◌∙◌, Bool, false, none, some, List, [], ◌∷◌, append-nil, length,
  drop, concat, ◌==◌, min, if◌then◌else◌, u32_mod, arith,
}
use mathlib.Core.Path.{subst}
use arduino_io_tcloud.Ota.Crc.{crc_update}
use arduino_io_tcloud.Ota.Download.{
  Context, in_file, completed, magic_number_mismatch, new_context, word_at, copy_header, turn, next,
  loop, parse_ota,
}
use arduino_io_tcloud.Ota.Images.{
  parse_all, AllFull, loop-turn, loop-end, started, copy_header-started, Reading, rest-Reading,
}

module _ (magic content : ℕ) (fails : List (List ℕ) → Bool) where
  -- A first read that is the header and no more.
  parse-header :
      (h : List ℕ)
      → length h ≡ 20
      → word_at h 8 ≡ magic
      → parse_ota magic content fails h new_context ≡ started magic content fails h
  unfolding parse_ota turn new_context
  parse-header h e g =
      let go = loop magic content fails 19 h in
      ap (λ n. loop magic content fails n h 0 new_context) e
      ∙ loop-turn magic content fails 19 0 h new_context (omega (arith, e))
      ∙ ap
          (λ (x : Context). next magic content fails go (
            elim x.download_state [
              | magic_number_mismatch ↦ none
              | _ ↦ some (0 + min (length h) 20)
            ],
            x,
          ))
          (ap (λ l. copy_header magic l new_context) (sym (append-nil h))
            ∙ copy_header-started magic content fails h [] e g)
      ∙ ap (λ n. go n (started magic content fails h))
          (let place : 0 + min (length h) 20 ≡ length h = omega (arith, e) in place)
      ∙ loop-end magic content fails 19 h (started magic content fails h)

  -- An image whose first read is its header and no more is never complete: its 20 bytes are not
  -- counted, so that after the last read the download still waits for as many.
  pub parse_all-waits :
      (h : List ℕ) (buffers : List (List ℕ))
      → length h ≡ 20
      → word_at h 8 ≡ magic
      → AllFull buffers
      → 20 + length (concat buffers) ≡ content
      → content < u32_mod
      → let s = parse_all magic content fails (h ∷ buffers) new_context in
        (s.download_state ≡ in_file) × (s.downloaded_size + 20 ≡ content)
  unfolding parse_all new_context crc_update
  parse_all-waits h buffers e g full size k =
      let c = crc_update 0xffffffff (drop 8 h) in
      let none_yet : (0 == content) ≡ false = ground arith in
      let some_left : (length (concat buffers) == content) ≡ false = ground arith in
      let first : Reading magic content fails c [] 0 (parse_ota magic content fails h new_context) =
        subst (Reading magic content fails c [] 0) (sym (parse-header h e g)) (record {
          at_state = sym (ap (λ b. if b then completed else in_file) none_yet);
          at_size = refl;
          at_crc = refl;
          at_images = refl;
        }) in
      let r =
        rest-Reading magic content fails c [] 0 (length (concat buffers)) buffers _ first full
          (omega arith) (omega arith) k in
      (
        r.at_state ∙ ap (λ b. if b then completed else in_file) some_left,
        omega (arith, r.at_size, size),
      )
