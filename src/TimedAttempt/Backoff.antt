-- ===== src/TimedAttempt/Backoff.antt =====
-- What the delays of src/utility/time/TimedAttempt.cpp are, and where they overflow.
use arduino_io_tcloud.Common.{
  ℕ, zero, suc, ◌-◌, ap, ◌∙◌, if◌then◌else◌, ◌+◌, ◌*◌, ◌%◌, ◌^◌, ◌≤◌, ◌<◌, ◌≡◌, ◌⊎◌, inl, inr, ltb,
  min, u32_mod, arith,
}
use native.Mathlib.Nat.{mod-eq_of_lt}
use arduino_io_tcloud.TimedAttempt.{TimedAttempt, begin, reload, retry, is_expired}

-- `n` calls of `retry`, at the times that `clock` gives.
unfoldable pub retries : (ℕ → ℕ) → ℕ → TimedAttempt → TimedAttempt
retries clock zero a = a
retries clock (suc n) a = retry (clock n) (retries clock n a)

-- What a call of `retry` leaves alone, and how the counter moves.
pub record Retried (lo hi n : ℕ) (a : TimedAttempt) : Type 0 where
  pub same_min : a.min_delay ≡ lo
  pub same_max : a.max_delay ≡ hi
  pub counted : a.retry_count ≡ n

pub retries-Retried :
    (clock : ℕ → ℕ) (n lo hi : ℕ) (a : TimedAttempt)
    → n < u32_mod
    → Retried lo hi n (retries clock n (begin a lo hi))
unfolding retries begin retry reload
retries-Retried clock zero lo hi a h = ground arith
retries-Retried clock (suc n) lo hi a h =
    ground (arith, retries-Retried clock n lo hi a (omega arith))

abbrev shift : ℕ → ℕ
shift n = if ltb 31 n then 31 else n

shift_small : (n : ℕ) → n ≤ 31 → shift n ≡ n
shift_small n h = ground arith

-- The delay that `retry` computes, from the fields before it.
retry-delay :
    (now lo hi n : ℕ) (a : TimedAttempt)
    → suc n < u32_mod
    → Retried lo hi n a
    → (retry now a).retry_delay ≡ min (2 ^ shift (suc n) * lo % u32_mod) hi
unfolding retry
retry-delay now lo hi n a h r =
    let e : (a.retry_count + 1) % u32_mod ≡ suc n = omega arith in rw (e, r.same_min, r.same_max)

pub retry-delay_fits :
    (now lo hi n : ℕ) (a : TimedAttempt)
    → n < 31
    → 2 ^ suc n * lo < u32_mod
    → Retried lo hi n a
    → (retry now a).retry_delay ≡ min (2 ^ suc n * lo) hi
retry-delay_fits now lo hi n a h k r =
    let fits : 2 ^ shift (suc n) * lo % u32_mod ≡ 2 ^ suc n * lo =
      rw (shift_small (suc n) (omega arith)) (mod-eq_of_lt k) in
    retry-delay now lo hi n a (omega arith) r ∙ ap (λ d. min d hi) fits

-- After the n-th retry, while `2 ^ n * lo` fits 32 bits, the wait is that product capped at `hi`.
pub retries-delay :
    (clock : ℕ → ℕ) (n lo hi : ℕ) (a : TimedAttempt)
    → n < 31
    → 2 ^ suc n * lo < u32_mod
    → (retries clock (suc n) (begin a lo hi)).retry_delay ≡ min (2 ^ suc n * lo) hi
unfolding retries
retries-delay clock n lo hi a h k =
    retry-delay_fits (clock n) lo hi n _ h k (retries-Retried clock n lo hi a (omega arith))

shift-mod : (s k : ℕ) → 29 ≤ s → s ≤ 31 → 2 ^ s * (8 * k) % u32_mod ≡ 0
shift-mod s k lo hi = elim (let c : (s ≡ 29) ⊎ ((s ≡ 30) ⊎ (s ≡ 31)) = grind arith in c) [
  | inl e ↦ rw e (omega arith)
  | inr (inl e) ↦ rw e (omega arith)
  | inr (inr e) ↦ rw e (omega arith)
]

shift_large : (n k : ℕ) → 29 ≤ n → 2 ^ shift n * (8 * k) % u32_mod ≡ 0
shift_large n k h = shift-mod (shift n) k (ground arith) (ground arith)

-- From the 29th retry on the product of the shift and a minimal delay that is a multiple of 8, as
-- all the delays of AIoTC_Config.h are, wraps to 0, and so does the wait.
pub retries-delay-eq-zero :
    (clock : ℕ → ℕ) (n k hi : ℕ) (a : TimedAttempt)
    → 28 ≤ n
    → suc n < u32_mod
    → (retries clock (suc n) (begin a (8 * k) hi)).retry_delay ≡ 0
unfolding retries
retries-delay-eq-zero clock n k hi a h w =
    let r = retries-Retried clock n (8 * k) hi a (omega arith) in
    retry-delay (clock n) (8 * k) hi n _ w r
    ∙ ap (λ d. min d hi) (shift_large (suc n) k (omega arith))
    ∙ omega arith

-- A timer that was armed `e` milliseconds ago has expired when `e` exceeds its delay, also where
-- `millis()` has wrapped round in between.
pub is_expired-elapsed :
    (a : TimedAttempt) (e : ℕ)
    → a.retry_tick < u32_mod
    → e < u32_mod
    → is_expired ((a.retry_tick + e) % u32_mod) a ≡ ltb a.retry_delay e
unfolding is_expired
is_expired-elapsed a e h k =
    let back : ((a.retry_tick + e) % u32_mod + u32_mod - a.retry_tick) % u32_mod ≡ e =
      omega arith in
    ap (ltb a.retry_delay) back
