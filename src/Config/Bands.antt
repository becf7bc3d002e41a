-- ===== src/Config/Bands.antt =====
-- The bits of allowed_bands: what adding a band does to the bands that are set.
use antenna_guardian_pi_lite.Common.{
  ℕ, zero, suc, ◌*◌, ◌^◌, ◌≤◌, ◌<◌, false, not, ◌||◌, ◌≡◌, ap, ◌∙◌, arith, ◌==◌,
}
use antenna_guardian_pi_lite.Common.Digits.{
  digit, digit-bit_or, digit-pow, bit_and-pow, digit_le, digit-zero, pow_pos, pow-mod,
}
use antenna_guardian_pi_lite.Policy.{has_band}
use antenna_guardian_pi_lite.Config.Antennas.{add_band}

is_set : (d p : ℕ) → d ≤ 1 → 0 < p → not (d * p == 0) ≡ (d == 1)
is_set zero p h k = ground arith
is_set (suc zero) p h k = ground arith
is_set (suc (suc d)) p h k = absurd (omega arith)

has_band-digit : (bits j : ℕ) → j < 16 → has_band bits j ≡ (digit bits j == 1)
unfolding has_band
has_band-digit bits j h =
    rw (pow-mod j 16 h, bit_and-pow bits j)
      (is_set (digit bits j) (2 ^ j) (digit_le bits j) (pow_pos j))

pub has_band-add_band :
    (bits i j : ℕ) → i < 16 → j < 16 → has_band (add_band bits i) j ≡ (has_band bits j || i == j)
unfolding add_band
has_band-add_band bits i j h k =
    rw
      (
        has_band-digit bits j k,
        has_band-digit (add_band bits i) j k,
        add_band,
        pow-mod i 16 h,
        digit-bit_or bits (2 ^ i) j,
        digit-pow i j,
      )
      (ground (arith, digit_le bits j))

pub has_band-zero : (j : ℕ) → j < 16 → has_band 0 j ≡ false
has_band-zero j h = has_band-digit 0 j h ∙ ap (λ d. d == 1) (digit-zero j)
