-- ===== src/Lzss/Bits.antt =====
-- Bit strings, most significant bit first, and reading numbers off them.
use Prim.Native.Nat.add
use native.Mathlib.Nat.{pow-suc, add-zero, add-suc}
use arduino_io_tcloud.Common.{
  ℕ, zero, suc, ◌+◌, ◌*◌, ◌/◌, ◌%◌, ◌^◌, ◌<◌, ◌≡◌, refl, sym, ap, ◌∙◌, Option, none, some, List, [],
  ◌∷◌, ◌++◌, append-nil, append_assoc, length, length-append, arith,
}

-- The low `s` bits of `v`.
unfoldable pub bits : ℕ → ℕ → List ℕ
bits zero v = []
bits (suc s) v = bits s (v / 2) ++ (v % 2) ∷ []

-- The bits of a sequence of bytes.
unfoldable pub stream : List ℕ → List ℕ
stream [] = []
stream (b ∷ bs) = bits 8 b ++ stream bs

unfoldable pub value : ℕ → List ℕ → ℕ
value acc [] = acc
value acc (b ∷ bs) = value (2 * acc + b) bs

unfoldable pub pull_acc : ℕ → ℕ → List ℕ → Option (ℕ × List ℕ)
pull_acc zero acc bs = some (acc, bs)
pull_acc (suc n) acc [] = none
pull_acc (suc n) acc (b ∷ bs) = pull_acc n (2 * acc + b) bs

-- The number that the next `n` bits stand for, and the bits after them.
unfoldable pub pull : ℕ → List ℕ → Option (ℕ × List ℕ)
pull n bs = pull_acc n 0 bs

pub length-bits : (s v : ℕ) → length (bits s v) ≡ s
unfolding bits
length-bits zero v = refl
length-bits (suc s) v =
    omega (arith, length-append (bits s (v / 2)) ((v % 2) ∷ []), length-bits s (v / 2))

pub stream-append : (xs ys : List ℕ) → stream (xs ++ ys) ≡ stream xs ++ stream ys
unfolding stream
stream-append [] ys = refl
stream-append (x ∷ xs) ys =
    ap (◌++◌ (bits 8 x)) (stream-append xs ys) ∙ sym (append_assoc (bits 8 x) _ _)

pub length-stream : (xs : List ℕ) → length (stream xs) ≡ 8 * length xs
unfolding stream
length-stream [] = refl
length-stream (x ∷ xs) =
    omega (arith, length-append (bits 8 x) (stream xs), length-bits 8 x, length-stream xs)

pub pow-add : (s k : ℕ) → 2 ^ (s + k) ≡ 2 ^ s * 2 ^ k
pow-add s zero = rw add-zero (omega arith)
pow-add s (suc k) = rw (add-suc, pow-suc 2 (s + k), pow-suc 2 k, pow-add s k) (omega arith)

-- Bits of a number that is put together from a high and a low part.
pub bits-append : (s k v w : ℕ) → w < 2 ^ k → bits (k + s) (v * 2 ^ k + w) ≡ bits s v ++ bits k w
unfolding bits
bits-append s zero v w h =
    let e : v * 1 + w ≡ v = omega arith in rw (add.zero, e) (sym (append-nil _))
bits-append s (suc k) v w h =
    let half : (v * 2 ^ suc k + w) / 2 ≡ v * 2 ^ k + w / 2 = rw (pow-suc 2 k) (omega arith) in
    let low : (v * 2 ^ suc k + w) % 2 ≡ w % 2 = rw (pow-suc 2 k) (omega arith) in
    let ih = bits-append s k v (w / 2) (omega (arith, pow-suc 2 k)) in
    rw (add.suc, bits, half, low, ih, append_assoc)

value-snoc : (acc b : ℕ) (xs : List ℕ) → value acc (xs ++ b ∷ []) ≡ 2 * value acc xs + b
unfolding value
value-snoc acc b [] = refl
value-snoc acc b (x ∷ xs) = value-snoc (2 * acc + x) b xs

value-bits : (s v : ℕ) → v < 2 ^ s → value 0 (bits s v) ≡ v
unfolding value bits
value-bits zero v h = omega arith
value-bits (suc s) v h =
    value-snoc 0 (v % 2) (bits s (v / 2))
    ∙ omega (arith, value-bits s (v / 2) (omega (arith, pow-suc 2 s)))

pull_acc-append :
    (acc : ℕ) (xs ys : List ℕ) → pull_acc (length xs) acc (xs ++ ys) ≡ some (value acc xs, ys)
unfolding pull_acc value
pull_acc-append acc [] ys = refl
pull_acc-append acc (x ∷ xs) ys = pull_acc-append (2 * acc + x) xs ys

pub pull-bits : (s v : ℕ) (ys : List ℕ) → v < 2 ^ s → pull s (bits s v ++ ys) ≡ some (v, ys)
unfolding pull
pull-bits s v ys h =
    ap (λ n. pull_acc n 0 (bits s v ++ ys)) (sym (length-bits s v))
    ∙ pull_acc-append 0 (bits s v) ys
    ∙ ap (λ n. some (n, ys)) (value-bits s v h)

-- With fewer bits than asked for there is nothing to read.
pull_acc_short : (n acc : ℕ) (bs : List ℕ) → length bs < n → pull_acc n acc bs ≡ none
unfolding pull_acc
pull_acc_short zero acc bs h = absurd (omega arith)
pull_acc_short (suc n) acc [] h = refl
pull_acc_short (suc n) acc (b ∷ bs) h = pull_acc_short n (2 * acc + b) bs (omega arith)

pub pull_short : (n : ℕ) (bs : List ℕ) → length bs < n → pull n bs ≡ none
unfolding pull
pull_short n bs h = pull_acc_short n 0 bs h

-- Bits that come later change nothing in what is read.
pull_acc_more :
    (n acc : ℕ) (bs more : List ℕ) {v : ℕ} {rest : List ℕ}
    → pull_acc n acc bs ≡ some (v, rest)
    → (pull_acc n acc (bs ++ more) ≡ some (v, rest ++ more)) × (length rest + n ≡ length bs)
unfolding pull_acc
pull_acc_more zero acc bs more h = ground arith
pull_acc_more (suc n) acc [] more h = cc
pull_acc_more (suc n) acc (b ∷ bs) more h = ground (arith, pull_acc_more n (2 * acc + b) bs more h)

pub pull_more :
    (n : ℕ) (bs more : List ℕ) {v : ℕ} {rest : List ℕ}
    → pull n bs ≡ some (v, rest)
    → (pull n (bs ++ more) ≡ some (v, rest ++ more)) × (length rest + n ≡ length bs)
unfolding pull
pull_more n bs more h = pull_acc_more n 0 bs more h
