-- ===== src/Common/Int.antt =====
-- Signed integers over the native numbers.
use Prim.Native.Nat.{ℕ}
use mathlib.Core.Path.{◌≡◌, ap}
use mathlib.Core.Bool.{Bool, true, false}
use arduino_io_tcloud.Common.Booleans.{◌==◌, ==_iff}

-- `negsuc n` is -(n + 1).
pub data ℤ : Type 0 where
  pos : ℕ → ℤ
  negsuc : ℕ → ℤ

abbrev pub int_eq : ℤ → ℤ → Bool
int_eq (pos m) (pos n) = m == n
int_eq (negsuc m) (negsuc n) = m == n
int_eq _ _ = false

pub int_eq_eq : (a b : ℤ) → int_eq a b ≡ true → a ≡ b
int_eq_eq (pos m) (pos n) h = ap pos ((==_iff m n).0 h)
int_eq_eq (negsuc m) (negsuc n) h = ap negsuc ((==_iff m n).0 h)
int_eq_eq (pos m) (negsuc n) h = cc
int_eq_eq (negsuc m) (pos n) h = cc
