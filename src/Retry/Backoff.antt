-- ===== src/Retry/Backoff.antt =====
-- The delays double up to their maximum, without overflow.
use antenna_guardian_pi_lite.Common.{ℕ, zero, suc, ◌*◌, ◌^◌, ◌≤◌, ◌<◌, ◌≡◌, ◌∙◌, ap, arith}
use Prim.Native.Nat.{min}
use native.Mathlib.Nat.{pow-suc}
use antenna_guardian_pi_lite.Retry.{ag_retry_next_delay}

-- The next delay is the smaller one of twice the current delay and the maximum: the 32-bit
-- arithmetic does not wrap on the way.
pub ag_retry_next_delay-min :
    (current maximum : ℕ)
    → current < 2 ^ 32
    → maximum < 2 ^ 32
    → ag_retry_next_delay current maximum ≡ min (2 * current) maximum
unfolding ag_retry_next_delay
ag_retry_next_delay-min current maximum hc hm = ground arith

-- The delay after n failed attempts in a row.
unfoldable pub delay_after : ℕ → ℕ → ℕ → ℕ
delay_after zero initial maximum = initial
delay_after (suc n) initial maximum = ag_retry_next_delay (delay_after n initial maximum) maximum

delay_after-le :
    (n initial maximum : ℕ)
    → initial ≤ maximum
    → maximum < 2 ^ 32
    → delay_after n initial maximum ≤ maximum
unfolding delay_after
delay_after-le zero initial maximum h m = h
delay_after-le (suc n) initial maximum h m = omega (
  arith,
  delay_after-le n initial maximum h m,
  ag_retry_next_delay-min (delay_after n initial maximum) maximum
      (omega (arith, delay_after-le n initial maximum h m)) m,
)

doubled : (n initial : ℕ) → initial * 2 ^ suc n ≡ 2 * (initial * 2 ^ n)
doubled n initial = ap (λ (t : ℕ). initial * t) (pow-suc 2 n) ∙ omega arith

-- After n failures in a row the delay is the initial delay times 2 ^ n, capped at the maximum, for
-- every initial delay up to a maximum of 32 bits.
pub delay_after-min :
    (n initial maximum : ℕ)
    → initial ≤ maximum
    → maximum < 2 ^ 32
    → delay_after n initial maximum ≡ min (initial * 2 ^ n) maximum
unfolding delay_after
delay_after-min zero initial maximum h m = omega arith
delay_after-min (suc n) initial maximum h m = omega (
  arith,
  delay_after-min n initial maximum h m,
  doubled n initial,
  ag_retry_next_delay-min (delay_after n initial maximum) maximum
      (omega (arith, delay_after-le n initial maximum h m)) m,
)
