-- ===== src/Retry.antt =====
-- src/retry.c: the next reconnect delay. `unsigned` has 32 bits, and its arithmetic wraps.
pub mod Backoff
use antenna_guardian_pi_lite.Common.{ℕ, ◌+◌, ◌-◌, ◌*◌, ◌%◌, ◌^◌, ◌||◌, leb, ltb, if◌then◌else◌}

-- a - b and a * 2 on unsigned.
abbrev pub sub32 : ℕ → ℕ → ℕ
sub32 a b = (a + 2 ^ 32 - b) % 2 ^ 32

abbrev pub double32 : ℕ → ℕ
double32 a = a * 2 % 2 ^ 32

unfoldable pub ag_retry_next_delay : ℕ → ℕ → ℕ
ag_retry_next_delay current_seconds maximum_seconds =
    if leb maximum_seconds current_seconds
      || ltb (sub32 maximum_seconds current_seconds) current_seconds
    then maximum_seconds
    else double32 current_seconds
