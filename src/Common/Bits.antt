-- ===== src/Common/Bits.antt =====
-- The binary or of numbers whose digits do not overlap, and a digit by the binary and.
use Prim.Native.Nat.{bit_and, bit_or, digits, bit_or-bitwise, bit_and-bitwise}
use Prim.Native.Nat.{ℕ, zero, suc, ◌+◌, ◌*◌, ◌/◌, ◌%◌, ◌^◌, ◌≤◌, ◌<◌, max}
use mathlib.Core.Path.{◌≡◌, refl, sym, ap, ◌∙◌, subst}
use native.Mathlib.Omega.{arith}
use arduino_io_tcloud.Common.Booleans.{nonzero, ◌==◌}

abbrev or_digits : ℕ → ℕ → ℕ → ℕ
or_digits n a b = digits (λ b. b) max n a b

times_double : (c p : ℕ) → c * (2 * p) ≡ 2 * (c * p)
times_double c p = grind arith

double_of : (c k : ℕ) → c * 2 ^ suc k ≡ 2 * (c * 2 ^ k)
double_of c k =
    let e : 2 ^ suc k ≡ 2 * 2 ^ k = omega arith in ap (λ q. c * q) e ∙ times_double c (2 ^ k)

-- A low part and a multiple of a power of two.
low_or_high : (k n a c : ℕ) → a ≤ n → a < 2 ^ k → or_digits n a (c * 2 ^ k) ≡ a + c * 2 ^ k
low_or_high k zero zero c h l = omega arith
low_or_high k zero (suc a) c h l = absurd (omega arith)
low_or_high k (suc n) zero c h l = omega arith
low_or_high zero (suc n) (suc a) c h l = absurd (omega arith)
low_or_high (suc k) (suc n) (suc a) c h l =
    let double = double_of c k in
    let half : c * 2 ^ suc k / 2 ≡ c * 2 ^ k = omega (arith, double) in
    let even : c * 2 ^ suc k % 2 ≡ 0 = omega (arith, double) in
    let rest = low_or_high k n (suc a / 2) c (omega arith) (omega arith) in
    rw (half, even, rest) (ground (arith, double))

high_or_low : (k n x c b : ℕ) → x ≡ c * 2 ^ k → x ≤ n → b < 2 ^ k → or_digits n x b ≡ x + b
high_or_low k zero zero c b e h l = omega arith
high_or_low k zero (suc x) c b e h l = absurd (omega arith)
high_or_low k (suc n) zero c b e h l = omega arith
high_or_low zero (suc n) (suc x) c b e h l =
    let rest =
      high_or_low zero n (suc x / 2) (suc x / 2) (b / 2) (omega arith) (omega arith)
        (omega arith) in
    rw rest (ground arith)
high_or_low (suc k) (suc n) (suc x) c b e h l =
    let double = double_of c k in
    let rest =
      high_or_low k n (suc x / 2) c (b / 2) (omega (arith, double)) (omega arith) (omega arith) in
    rw rest (ground (arith, double))

pub bit_or-low : (k a c : ℕ) → a < 2 ^ k → bit_or a (c * 2 ^ k) ≡ a + c * 2 ^ k
bit_or-low k a c h = (bit_or-bitwise a (c * 2 ^ k)) ∙ low_or_high k a a c (omega arith) h

pub bit_or-high : (k c b : ℕ) → b < 2 ^ k → bit_or (c * 2 ^ k) b ≡ c * 2 ^ k + b
bit_or-high k c b h =
    (bit_or-bitwise (c * 2 ^ k) b) ∙ high_or_low k (c * 2 ^ k) (c * 2 ^ k) c b refl (omega arith) h

-- Two numbers whose high parts are 4 and 3.
abbrev IsSeven : ℕ → ℕ → Type 0
IsSeven k r = (7 * 2 ^ k ≤ r) × (r < 8 * 2 ^ k)

four_or_three_zero : (n x y : ℕ) → x ≡ 4 → y ≡ 3 → x ≤ n → or_digits n x y ≡ 7
four_or_three_zero (suc (suc (suc zero))) x y e f h = rw (e, f)
four_or_three_zero (suc (suc (suc (suc n)))) x y e f h = rw (e, f)
four_or_three_zero zero x y e f h = absurd (omega arith)
four_or_three_zero (suc zero) x y e f h = absurd (omega arith)
four_or_three_zero (suc (suc zero)) x y e f h = absurd (omega arith)

four_or_three :
    (k n x a b y : ℕ)
    → x ≡ 4 * 2 ^ k + a
    → y ≡ 3 * 2 ^ k + b
    → x ≤ n
    → a < 2 ^ k
    → b < 2 ^ k
    → IsSeven k (or_digits n x y)
four_or_three zero n x a b y e f h l l' =
    let seven = four_or_three_zero n x y (omega arith) (omega arith) h in (omega arith, omega arith)
four_or_three (suc k) n zero a b y e f h l l' = absurd (omega arith)
four_or_three (suc k) zero (suc x) a b y e f h l l' = absurd (omega arith)
four_or_three (suc k) (suc n) (suc x) a b y e f h l l' =
    let rest =
      four_or_three k n (suc x / 2) (a / 2) (b / 2) (y / 2) (omega arith) (omega arith)
        (omega arith) (omega arith) (omega arith) in
    (ground (arith, rest.0), ground (arith, rest.1))

pub bit_or-tops :
    (k a b : ℕ) → a < 2 ^ k → b < 2 ^ k → IsSeven k (bit_or (4 * 2 ^ k + a) (3 * 2 ^ k + b))
bit_or-tops k a b h l =
    let e : bit_or (4 * 2 ^ k + a) (3 * 2 ^ k + b)
        ≡ or_digits (4 * 2 ^ k + a) (4 * 2 ^ k + a) (3 * 2 ^ k + b) =
      bit_or-bitwise (4 * 2 ^ k + a) (3 * 2 ^ k + b) in
    subst (IsSeven k) (sym e) (four_or_three k (4 * 2 ^ k + a) _ a b _ refl refl (omega arith) h l)

-- The `d`-th digit of a number, for one of the first seven.
pub bit_and-digit : (d m : ℕ) → d < 7 → nonzero (bit_and (2 ^ d) m) ≡ (m / 2 ^ d % 2 == 1)
bit_and-digit zero m h = ap nonzero (bit_and-bitwise 1 m) ∙ ground arith
bit_and-digit (suc zero) m h = ap nonzero (bit_and-bitwise 2 m) ∙ ground arith
bit_and-digit (suc (suc zero)) m h = ap nonzero (bit_and-bitwise 4 m) ∙ ground arith
bit_and-digit (suc (suc (suc zero))) m h = ap nonzero (bit_and-bitwise 8 m) ∙ ground arith
bit_and-digit (suc (suc (suc (suc zero)))) m h = ap nonzero (bit_and-bitwise 16 m) ∙ ground arith
bit_and-digit (suc (suc (suc (suc (suc zero))))) m h =
    ap nonzero (bit_and-bitwise 32 m) ∙ ground arith
bit_and-digit (suc (suc (suc (suc (suc (suc zero)))))) m h =
    ap nonzero (bit_and-bitwise 64 m) ∙ ground arith
bit_and-digit (suc (suc (suc (suc (suc (suc (suc d))))))) m h = absurd (omega arith)
