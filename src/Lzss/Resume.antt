-- ===== src/Lzss/Resume.antt =====
-- Feeding the decoder of src/utility/lzss/lzss.cpp a download that arrives in pieces.
use mathlib.Core.Path.{subst}
use mathlib.Core.List.{reverse}
use arduino_io_tcloud.Common.{
  ℕ, suc, ℤ, Option, ◌<◌, ◌≡◌, refl, sym, ap, ◌∙◌, none, some, List, [], ◌∷◌, ◌++◌, append-nil,
  append_assoc, length, concat, u32_mod, arith,
}
use arduino_io_tcloud.Lzss.{Core, LzssDecoder, Garbage, decompress, create}
use arduino_io_tcloud.Lzss.Bits.{bits, stream, stream-append, pull_short}
use arduino_io_tcloud.Lzss.Machine.{absorb, absorb-append, absorb-none}
use arduino_io_tcloud.Lzss.Reader.{AreBytes}
use arduino_io_tcloud.Lzss.Tokens.{Shows, byte_at, text, parse, parse-Shows, text_of_bytes}
use arduino_io_tcloud.Lzss.Stream.{Ready, kept, fuel_for, decompress-Decompressed}

-- One call of `decompress` for each chunk.
unfoldable pub feed : LzssDecoder → List (List ℕ) → LzssDecoder
feed d [] = d
feed d (c ∷ cs) = feed (decompress (fuel_for c) (some c) (length c) d).1 cs

abbrev pub AreChunks : List (List ℕ) → Type 0
AreChunks [] = Unit {0}
AreChunks (c ∷ cs) = AreBytes c × (length c < u32_mod) × AreChunks cs

-- However the input is cut, the decoder ends in the state of the ideal machine on all of it, with
-- the bits of the unfinished step kept.
pub feed-absorb :
    (cs : List (List ℕ)) (d : LzssDecoder)
    → Ready d
    → AreChunks cs
    → Ready (feed d cs)
      × (absorb d.core (kept d ++ stream (concat cs)) ≡ ((feed d cs).core, kept (feed d cs)))
unfolding feed stream
feed-absorb [] d v o =
    (v, ap (absorb d.core) (append-nil (kept d)) ∙ absorb-none d.state d.core (kept d) refl v.stuck)
feed-absorb (c ∷ cs) d v o =
    let r = decompress-Decompressed d c v o.0 o.1 in
    let d' = (decompress (fuel_for c) (some c) (length c) d).1 in
    let ih = feed-absorb cs d' r.ready o.2 in
    let whole : kept d ++ stream (c ++ concat cs) ≡ (kept d ++ stream c) ++ stream (concat cs) =
      ap (◌++◌ (kept d)) (stream-append c (concat cs))
      ∙ sym (append_assoc (kept d) (stream c) (stream (concat cs))) in
    (
      ih.0,
      ap (absorb d.core) whole
          ∙ absorb-append d.core (kept d ++ stream c) (stream (concat cs)) v.live
          ∙ ap (λ (x : Core × List ℕ). absorb x.0 (x.1 ++ stream (concat cs))) r.absorbed
          ∙ ih.1,
    )

-- Two ways to cut the same bytes into chunks leave the decoder with the same output, the same
-- window and the same bits kept.
pub feed_chunks :
    (xs ys : List (List ℕ)) (d : LzssDecoder)
    → Ready d
    → AreChunks xs
    → AreChunks ys
    → concat xs ≡ concat ys
    → ((feed d xs).core ≡ (feed d ys).core) × (kept (feed d xs) ≡ kept (feed d ys))
feed_chunks xs ys d v hx hy e =
    let same : ◌≡◌ {A = Core × List ℕ} ((feed d xs).core, kept (feed d xs))
        ((feed d ys).core, kept (feed d ys)) =
      sym (feed-absorb xs d v hx).1
      ∙ ap (λ bs. absorb d.core (kept d ++ stream bs)) e
      ∙ (feed-absorb ys d v hy).1 in
    (ap (λ (x : Core × List ℕ). x.0) same, ap (λ (x : Core × List ℕ). x.1) same)

-- A fresh decoder in buffer mode, whose `buf` happens to start out as 0, is ready.
pub create-Ready : (g : Garbage) → g.buf ≡ 0 → Ready (create none g)
unfolding create bits
create-Ready g e = record {
  no_callback = refl;
  drained = refl;
  clean = omega arith;
  narrow = omega arith;
  live = tt;
  stuck = pull_short 1 [] (omega arith);
}

create-Shows : (cbk : Option (ℕ → ℤ)) (g : Garbage) → Shows g [] (create cbk g).core
unfolding create byte_at
create-Shows cbk g = record { cursor = refl; ring = refl; output = refl }

-- However a download is cut into chunks, the bytes that a fresh decoder has written are the text of
-- the tokens that the download's bits hold, provided that `buf` starts out as 0.
pub feed-text :
    (g : Garbage) (cs : List (List ℕ))
    → g.buf ≡ 0
    → AreChunks cs
    → (feed (create none g) cs).out ≡ reverse (text_of_bytes g (concat cs))
unfolding text_of_bytes create bits
feed-text g cs e o =
    let d = create none g in
    let bs = stream (concat cs) in
    let shown =
      parse-Shows (suc (length bs)) g [] d.core bs (create-Shows none g) refl (omega arith) in
    let end = (feed-absorb cs d (create-Ready g e) o).1 in
    let final =
      subst (λ (x : Core × List ℕ). Shows g (text g (parse (suc (length bs)) bs) []) x.0) end
        shown in
    final.output
