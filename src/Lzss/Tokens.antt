-- ===== src/Lzss/Tokens.antt =====
-- What the LZSS stream of src/utility/lzss/lzss.cpp means: a sequence of literals and of copies,
-- read against the text so far. This is the loop of `decode` in extras/tools/lzss.c.
use mathlib.Core.Path.{subst}
use mathlib.Core.List.{reverse, reverse-cons}
use arduino_io_tcloud.Common.{
  ℕ, zero, suc, ◌+◌, ◌-◌, ◌%◌, ◌<◌, ◌≡◌, refl, sym, ap, ap₂, ◌∙◌, inl, inr, Option, none, some,
  List, [], ◌∷◌, ◌++◌, length, nonzero, true, false, ltb, ◌==◌, if◌then◌else◌, Option-cases, arith,
}
use arduino_io_tcloud.Lzss.{
  Core, Garbage, FsmState, fsm_0, fsm_1, fsm_2, fsm_3, ei, ej, window_size, lookahead_size,
  put_byte, copy_bytes, dispatch, update,
}
use arduino_io_tcloud.Lzss.Bits.{pull, stream}
use arduino_io_tcloud.Lzss.Machine.{absorb, absorb-none, absorb-some}

pub data Token : Type 0 where
  literal : ℕ → Token
  copied : ℕ → ℕ → Token

infixl 5 ◌>>=◌
abbrev pub ◌>>=◌ : {A B : Type 0} → Option A → (A → Option B) → Option B
◌>>=◌ none f = none
◌>>=◌ (some a) f = f a

unfoldable pub parse_literal : List ℕ → Option (Token × List ℕ)
parse_literal bs = do (c, rest) ← pull 8 bs; some (literal c, rest)

unfoldable pub parse_copy : List ℕ → Option (Token × List ℕ)
parse_copy bs = do (i, rest) ← pull ei bs; (j, rest') ← pull ej rest; some (copied i j, rest')

-- The first token of a bit string, and the bits after it.
unfoldable pub parse_token : List ℕ → Option (Token × List ℕ)
parse_token bs = do
  (flag, rest) ← pull 1 bs
  if nonzero flag then parse_literal rest else parse_copy rest

-- All its tokens; every token takes bits off, so as much fuel as there are bits is enough.
unfoldable pub parse : ℕ → List ℕ → List Token
parse zero bs = []
parse (suc f) bs = elim (parse_token bs) [ none ↦ [] | some (t, rest) ↦ t ∷ parse f rest ]

-- The place in the ring of the byte after `n` bytes of text.
abbrev pub slot : ℕ → ℕ
slot n = (window_size - lookahead_size + n) % window_size

abbrev pub blank : Garbage → ℕ → ℕ
blank g p = if ltb p (window_size - lookahead_size) then 32 else g.buffer p

-- The byte of the text (newest first) that stands in slot `p`: the last one that was put there, or
-- what the ring was filled with.
unfoldable pub byte_at : Garbage → List ℕ → ℕ → ℕ
byte_at g [] p = blank g p
byte_at g (b ∷ h) p = if p == slot (length h) then b else byte_at g h p

-- The text after `n` more bytes, copied from slot `i + k` on; a copy may run into itself.
unfoldable pub copy_text : Garbage → ℕ → ℕ → ℕ → List ℕ → List ℕ
copy_text g zero k i h = h
copy_text g (suc n) k i h = copy_text g n (k + 1) i (byte_at g h ((i + k) % window_size) % 256 ∷ h)

unfoldable pub token_text : Garbage → Token → List ℕ → List ℕ
unfolding copy_text
token_text g (literal c) h = c % 256 ∷ h
token_text g (copied i j) h = copy_text g (j + 2) 0 i h

unfoldable pub text : Garbage → List Token → List ℕ → List ℕ
text g [] h = h
text g (t ∷ ts) h = text g ts (token_text g t h)

-- The decoder's ring, cursor and output are those of the text `h`.
pub record Shows (g : Garbage) (h : List ℕ) (w : Core) : Type 0 where
  pub cursor : w.r ≡ slot (length h)
  pub ring : w.buffer ≡ byte_at g h
  pub output : w.out ≡ reverse h

put_byte-Shows :
    (g : Garbage) (h : List ℕ) (w : Core) (c : ℕ)
    → Shows g h w
    → Shows g (c % 256 ∷ h) (put_byte c w)
unfolding put_byte byte_at
put_byte-Shows g h w c v = record {
  cursor = omega (arith, v.cursor);
  ring = ap₂ (λ (f : ℕ → ℕ) k. update f k (c % 256)) v.ring v.cursor;
  output = ap (λ xs. xs ++ (c % 256) ∷ []) v.output ∙ sym (reverse-cons (c % 256) h);
}

copy_bytes-Shows :
    (g : Garbage) (n k : ℕ) (h : List ℕ) (w : Core)
    → Shows g h w
    → Shows g (copy_text g n k w.i h) (copy_bytes n k w)
unfolding copy_bytes copy_text put_byte
copy_bytes-Shows g zero k h w v = v
copy_bytes-Shows g (suc n) k h w v =
    let p = (w.i + k) % window_size in
    let same = ap (λ (f : ℕ → ℕ). f p) v.ring in
    let step =
      subst (λ c. Shows g (c % 256 ∷ h) (put_byte (w.buffer p) w)) same
        (put_byte-Shows g h w (w.buffer p) v) in
    copy_bytes-Shows g n (k + 1) (byte_at g h p % 256 ∷ h) (put_byte (w.buffer p) w) step

-- A state change that leaves the window alone.
Shows-moved :
    {g : Garbage} {h : List ℕ} {w : Core} (s : FsmState) (n : ℕ)
    → Shows g h w
    → Shows g h (record w { state = s; i = n })
Shows-moved s n v = record { cursor = v.cursor; ring = v.ring; output = v.output }

-- What the machine makes of the bits that the first token takes.
data Taken (g : Garbage) (h : List ℕ) (w : Core) (bs : List ℕ)
    : Option (Token × List ℕ) → Type 0 where
  whole :
      (t : Token) (rest : List ℕ) (w' : Core)
      → w'.state ≡ fsm_0
      → Shows g (token_text g t h) w'
      → length rest < length bs
      → absorb w bs ≡ absorb w' rest
      → Taken g h w bs (some (t, rest))
  partial : Shows g h (absorb w bs).0 → Taken g h w bs none

literal-Taken :
    (g : Garbage) (h : List ℕ) (w : Core) (bs : List ℕ)
    → Shows g h w
    → w.state ≡ fsm_1
    → Taken g h w bs (parse_literal bs)
unfolding parse_literal dispatch token_text
literal-Taken g h w bs v s = elim (Option-cases (pull 8 bs)) [
  | inl e ↦ rw e (partial (rw (absorb-none fsm_1 w bs s e) v))
  | inr (p, e) ↦
      let step = absorb-some fsm_1 w bs s tt e in
      rw e (
        whole (literal p.0) p.1 (record (put_byte p.0 w) { state = fsm_0 }) refl
          (Shows-moved fsm_0 (put_byte p.0 w).i (put_byte-Shows g h w p.0 v)) step.1 step.0)
]

copy-Taken :
    (g : Garbage) (h : List ℕ) (w : Core) (bs : List ℕ)
    → Shows g h w
    → w.state ≡ fsm_2
    → Taken g h w bs (parse_copy bs)
unfolding parse_copy dispatch token_text
copy-Taken g h w bs v s = elim (Option-cases (pull ei bs)) [
  | inl e ↦ rw e (partial (rw (absorb-none fsm_2 w bs s e) v))
  | inr (p, e) ↦
      let step = absorb-some fsm_2 w bs s tt e in
      let w' = record w { i = p.0; state = fsm_3 } in
      let v' = Shows-moved fsm_3 p.0 v in
      rw e (elim (Option-cases (pull ej p.1)) [
        | inl e' ↦ rw e' (partial (rw (step.0, absorb-none fsm_3 w' p.1 refl e') v'))
        | inr (q, e') ↦
            let step' = absorb-some fsm_3 w' p.1 refl tt e' in
            let w'' = copy_bytes (q.0 + 2) 0 w' in
            rw e' (
              whole (copied p.0 q.0) q.1 (record w'' { state = fsm_0 }) refl
                (Shows-moved fsm_0 w''.i (copy_bytes-Shows g (q.0 + 2) 0 h w' v'))
                (omega (arith, step.1, step'.1)) (step.0 ∙ step'.0))
      ])
]

Taken-before :
    (g : Garbage) (h : List ℕ) (w w' : Core) (bs rest : List ℕ) (r : Option (Token × List ℕ))
    → absorb w bs ≡ absorb w' rest
    → length rest < length bs
    → Taken g h w' rest r
    → Taken g h w bs r
Taken-before g h w w' bs rest r e l (whole t rest' w'' s v l' e') =
    whole t rest' w'' s v (omega arith) (e ∙ e')
Taken-before g h w w' bs rest r e l (partial v) = partial (rw e v)

token-Taken :
    (g : Garbage) (h : List ℕ) (w : Core) (bs : List ℕ)
    → Shows g h w
    → w.state ≡ fsm_0
    → Taken g h w bs (parse_token bs)
unfolding parse_token dispatch
token-Taken g h w bs v s = elim (Option-cases (pull 1 bs)) [
  | inl e ↦ rw e (partial (rw (absorb-none fsm_0 w bs s e) v))
  | inr (p, e) ↦
      let step = absorb-some fsm_0 w bs s tt e in
      let split =
        elim (nonzero p.0)
          as (λ b.
            Taken g h (record w { state = if b then fsm_1 else fsm_2 }) p.1
              (if b then parse_literal p.1 else parse_copy p.1)) [
                | true ↦
                    literal-Taken g h (record w { state = fsm_1 }) p.1 (Shows-moved fsm_1 w.i v)
                      refl
                | false ↦
                    copy-Taken g h (record w { state = fsm_2 }) p.1 (Shows-moved fsm_2 w.i v) refl
              ] in
      rw e (Taken-before g h w (dispatch fsm_0 p.0 w) bs p.1 _ step.0 step.1 split)
]

-- The machine's output on a whole bit string is the text of its tokens. The bits of a token that
-- is cut off at the end change nothing.
parse_step-Shows :
    (f : ℕ) (g : Garbage) (h : List ℕ) (w : Core) (bs : List ℕ) (r : Option (Token × List ℕ))
    → ((h' : List ℕ) (w' : Core) (rest : List ℕ)
        → Shows g h' w'
        → w'.state ≡ fsm_0
        → length rest < f
        → Shows g (text g (parse f rest) h') (absorb w' rest).0)
    → length bs < suc f
    → parse_token bs ≡ r
    → Taken g h w bs r
    → Shows g (text g (parse (suc f) bs) h) (absorb w bs).0
unfolding parse text
parse_step-Shows f g h w bs r ih l e (whole t rest w' s v less q) =
    rw (e, parse, text, q) (ih (token_text g t h) w' rest v s (omega arith))
parse_step-Shows f g h w bs r ih l e (partial v) = rw (e, parse, text) v

pub parse-Shows :
    (f : ℕ) (g : Garbage) (h : List ℕ) (w : Core) (bs : List ℕ)
    → Shows g h w
    → w.state ≡ fsm_0
    → length bs < f
    → Shows g (text g (parse f bs) h) (absorb w bs).0
parse-Shows zero g h w bs v s l = absurd (omega arith)
parse-Shows (suc f) g h w bs v s l =
    parse_step-Shows f g h w bs (parse_token bs) (parse-Shows f g) l refl (token-Taken g h w bs v s)

-- All bytes of a download, as a text: newest byte first.
unfoldable pub text_of_bytes : Garbage → List ℕ → List ℕ
unfolding stream text parse
text_of_bytes g bytes = let bs = stream bytes in text g (parse (suc (length bs)) bs) []
