-- ===== src/Ota/Images.antt =====
-- What `parseOta` of src/ota/interface/OTAInterfaceDefault.cpp makes of an image that comes in several
-- reads.
use mathlib.Core.Path.{subst}
use arduino_io_tcloud.Common.{
  ℕ, zero, suc, ◌+◌, ◌%◌, ◌≤◌, ◌<◌, ◌≡◌, refl, sym, ap, ◌∙◌, Bool, true, false, none, some, List,
  [], ◌∷◌, ◌++◌, append-nil, append_assoc, length, length-append, take, drop, concat, ltb, ◌==◌,
  ==_iff, min, if◌then◌else◌, u32_mod, arith,
}
use arduino_io_tcloud.Ota.Crc.{crc_update, crc_update-append}
use arduino_io_tcloud.Ota.Download.{
  Context, DownloadState, in_file, completed, failed, new_context, word_at, finish_header,
  copy_header, mark_completed, mark_failed, copy_file, turn, next, loop, parse_ota,
  magic_number_mismatch,
}

module _ (ota_magic_number content_length : ℕ) (flash_fails : List (List ℕ) → Bool) where
  -- `parseOta` for each read in turn.
  unfoldable pub parse_all : List (List ℕ) → Context → Context
  parse_all [] s = s
  parse_all (buffer ∷ buffers) s =
      parse_all buffers (parse_ota ota_magic_number content_length flash_fails buffer s)

take-append : (h t : List ℕ) (n : ℕ) → length h ≡ n → take n (h ++ t) ≡ h
take-append [] t zero e = refl
take-append [] t (suc n) e = absurd (omega arith)
take-append (x ∷ h) t zero e = absurd (omega arith)
take-append (x ∷ h) t (suc n) e = ap (λ l. x ∷ l) (take-append h t n (omega arith))

take_all : (h : List ℕ) (n : ℕ) → length h ≡ n → take n h ≡ h
take_all h n e = ap (take n) (sym (append-nil h)) ∙ take-append h [] n e

drop-append : (h t : List ℕ) (n : ℕ) → length h ≡ n → drop n (h ++ t) ≡ t
drop-append [] t zero e = refl
drop-append [] t (suc n) e = absurd (omega arith)
drop-append (x ∷ h) t zero e = absurd (omega arith)
drop-append (x ∷ h) t (suc n) e = drop-append h t n (omega arith)

concat-snoc : (xss : List (List ℕ)) (ys : List ℕ) → concat (xss ++ ys ∷ []) ≡ concat xss ++ ys
concat-snoc [] ys = append-nil ys
concat-snoc (xs ∷ xss) ys =
    ap (λ l. xs ++ l) (concat-snoc xss ys) ∙ sym (append_assoc xs (concat xss) ys)

abbrev pub AllFull : List (List ℕ) → Type 0
AllFull [] = Unit {0}
AllFull (b ∷ bs) = (0 < length b) × AllFull bs

module _ (magic content : ℕ) (fails : List (List ℕ) → Bool) where
  pub loop-end :
      (n : ℕ) (buffer : List ℕ) (s : Context)
      → loop magic content fails n buffer (length buffer) s ≡ s
  unfolding loop
  loop-end zero buffer s = refl
  loop-end (suc n) buffer s =
      let e : ltb (length buffer) (length buffer) ≡ false = ground arith in rw e

  pub loop-turn :
      (n cursor : ℕ) (buffer : List ℕ) (s : Context)
      → cursor < length buffer
      → loop magic content fails (suc n) buffer cursor s
        ≡ next magic content fails
            (loop magic content fails n buffer)
            (turn magic content fails buffer cursor s.download_state s)
  unfolding loop
  loop-turn n cursor buffer s h = let e : ltb cursor (length buffer) ≡ true = ground arith in rw e

  loop-file :
      (n cursor : ℕ) (buffer : List ℕ) (s : Context)
      → cursor < length buffer
      → s.download_state ≡ in_file
      → loop magic content fails (suc n) buffer cursor s ≡ copy_file content fails buffer cursor s
  unfolding turn
  loop-file n cursor buffer s h e =
      loop-turn n cursor buffer s h
      ∙ ap
          (λ st.
            next magic content fails (loop magic content fails n buffer)
              (turn magic content fails buffer cursor st s))
          e
      ∙ loop-end n buffer (copy_file content fails buffer cursor s)

  -- A read once the header is there.
  pub parse-file :
      (buffer : List ℕ) (s : Context)
      → 0 < length buffer
      → s.download_state ≡ in_file
      → parse_ota magic content fails buffer s ≡ copy_file content fails buffer 0 s
  unfolding parse_ota
  parse-file [] s h e = absurd (omega arith)
  parse-file (x ∷ xs) s h e = loop-file (length xs) 0 (x ∷ xs) s h e

  -- The first read, which brings the header `h` and more.
  abbrev pub started : List ℕ → Context
  started h = record new_context {
    download_state = in_file;
    header = h;
    header_copied_bytes = 20;
    calculated_crc32 = crc_update 0xffffffff (drop 8 h);
  }

  pub copy_header-started :
      (h t : List ℕ)
      → length h ≡ 20
      → word_at h 8 ≡ magic
      → copy_header magic (h ++ t) new_context ≡ started h
  unfolding copy_header finish_header new_context
  copy_header-started h t e g =
      let long : ltb (length (h ++ t)) 20 ≡ false = ground (arith, length-append h t) in
      rw (long, take-append h t 20 e, take_all h 20 e, (==_iff (word_at h 8) magic).1 g)

  pub parse-first :
      (h t : List ℕ)
      → length h ≡ 20
      → 0 < length t
      → word_at h 8 ≡ magic
      → parse_ota magic content fails (h ++ t) new_context
        ≡ copy_file content fails (h ++ t) 20 (started h)
  unfolding parse_ota turn copy_file new_context
  parse-first h t e f g =
      let b = h ++ t in
      let size : length b ≡ suc (suc (length t + 18)) = omega (arith, length-append h t) in
      let place : 0 + min (length b) 20 ≡ 20 = omega (arith, length-append h t) in
      let go = loop magic content fails (suc (length t + 18)) b in
      ap (λ n. loop magic content fails n b 0 new_context) size
      ∙ loop-turn (suc (length t + 18)) 0 b new_context (omega (arith, size))
      ∙ ap
          (λ (x : Context). next magic content fails go (
            elim x.download_state [
              | magic_number_mismatch ↦ none
              | _ ↦ some (0 + min (length b) 20)
            ],
            x,
          ))
          (copy_header-started h t e g)
      ∙ ap (λ k. go k (started h)) place
      ∙ loop-file (length t + 18) 20 b (started h) (omega (arith, size)) refl

  abbrev pub state_for : ℕ → DownloadState
  state_for size = if size == content then completed else in_file

  with_state :
      (b : Bool) (s : Context)
      → s.download_state ≡ in_file
      → (if b then record s { download_state = completed } else s)
        ≡ record s { download_state = if b then completed else in_file }
  with_state true s e = refl
  with_state false s e = ap (λ st. record s { download_state = st }) e

  marked :
      (s : Context)
      → s.download_state ≡ in_file
      → s.downloaded_size ≤ content
      → mark_failed content (mark_completed content s)
        ≡ record s { download_state = state_for s.downloaded_size }
  marked s e h =
      let t = record s { download_state = state_for s.downloaded_size } in
      let fits : ltb content s.downloaded_size ≡ false = ground arith in
      ap (mark_failed content) (with_state (s.downloaded_size == content) s e)
      ∙ ap (λ b. if b then record t { download_state = failed } else t) fits

  -- What was received of an image whose bytes after the header are `image`.
  pub record Reading (crc : ℕ) (image : List ℕ) (size : ℕ) (s : Context) : Type 0 where
    pub at_state : s.download_state ≡ state_for size
    pub at_size : s.downloaded_size ≡ size
    pub at_crc : s.calculated_crc32 ≡ crc_update crc image
    pub at_images : concat s.images ≡ image

  pub copy_file-Reading :
      (crc : ℕ) (image buffer : List ℕ) (cursor size : ℕ) (s : Context)
      → s.download_state ≡ in_file
      → s.downloaded_size ≡ size
      → s.calculated_crc32 ≡ crc_update crc image
      → concat s.images ≡ image
      → size + length buffer ≤ content
      → content < u32_mod
      → Reading crc
          (image ++ drop cursor buffer)
          (size + length buffer)
          (copy_file content fails buffer cursor s)
  unfolding copy_file
  copy_file-Reading crc image buffer cursor size s e f g i h k =
      let rest = drop cursor buffer in
      let grown : (s.downloaded_size + length buffer) % u32_mod ≡ size + length buffer =
        omega arith in
      subst (Reading crc (image ++ rest) (size + length buffer))
        (sym (marked _ e (omega (arith, grown))))
        (record {
          at_state = ap state_for grown;
          at_size = grown;
          at_crc = ap (λ c. crc_update c rest) g ∙ sym (crc_update-append crc image rest);
          at_images = concat-snoc s.images rest ∙ ap (λ l. l ++ rest) i;
        })

  -- A read that is not the first one.
  pub parse_ota-Reading :
      (crc : ℕ) (image : List ℕ) (size : ℕ) (b : List ℕ) (s : Context)
      → Reading crc image size s
      → 0 < length b
      → size + length b ≤ content
      → content < u32_mod
      → Reading crc (image ++ b) (size + length b) (parse_ota magic content fails b s)
  parse_ota-Reading crc image size b s r h i k =
      let early : (size == content) ≡ false = ground arith in
      let st = r.at_state ∙ ap (λ x. if x then completed else in_file) early in
      subst (Reading crc (image ++ b) (size + length b)) (sym (parse-file b s h st))
        (copy_file-Reading crc image b 0 size s st r.at_size r.at_crc r.at_images i k)

  -- The reads that are left.
  pub rest-Reading :
      (crc : ℕ) (image : List ℕ) (size total : ℕ) (buffers : List (List ℕ)) (s : Context)
      → Reading crc image size s
      → AllFull buffers
      → size + length (concat buffers) ≡ total
      → total ≤ content
      → content < u32_mod
      → Reading crc (image ++ concat buffers) total (parse_all magic content fails buffers s)
  unfolding parse_all
  rest-Reading crc image size total [] s r h e i k =
      subst (λ l. Reading crc l total s) (sym (append-nil image))
        (subst (λ n. Reading crc image n s) (omega arith) r)
  rest-Reading crc image size total (b ∷ bs) s r h e i k =
      let l = length-append b (concat bs) in
      let r' = parse_ota-Reading crc image size b s r h.0 (omega (arith, l)) k in
      subst (λ x. Reading crc x total (parse_all magic content fails (b ∷ bs) s))
        (append_assoc image b (concat bs))
        (rest-Reading crc (image ++ b) (size + length b) total bs _ r' h.1 (omega (arith, l)) i k)

  -- The first read, with the header and more.
  pub first-Reading :
      (h t : List ℕ)
      → length h ≡ 20
      → 0 < length t
      → word_at h 8 ≡ magic
      → 20 + length t ≤ content
      → content < u32_mod
      → Reading
          (crc_update 0xffffffff (drop 8 h))
          t
          (20 + length t)
          (parse_ota magic content fails (h ++ t) new_context)
  unfolding crc_update new_context
  first-Reading h t e f g i k =
      let c = crc_update 0xffffffff (drop 8 h) in
      let l = length-append h t in
      subst (Reading c t (20 + length t)) (sym (parse-first h t e f g)) (
        subst (λ x. Reading c x (20 + length t) (copy_file content fails (h ++ t) 20 (started h)))
          (drop-append h t 20 e)
          (subst
            (λ n. Reading c (drop 20 (h ++ t)) n (copy_file content fails (h ++ t) 20 (started h)))
            (omega (arith, l))
            (copy_file-Reading c [] (h ++ t) 20 0 (started h) refl refl refl refl (omega (arith, l))
              k)))
