-- ===== src/Common/Digits.antt =====
-- The binary digits of a number, and what the operations on digits make of them.
use Prim.Native.Nat.{
  ℕ, zero, suc, ◌+◌, ◌-◌, ◌*◌, ◌/◌, ◌%◌, ◌^◌, ◌≤◌, ◌<◌, min, max, digits, bitwise, bit_and, bit_or,
  bit_and-bitwise, bit_or-bitwise,
}
use mathlib.Core.Path.{◌≡◌, refl, ap, sym, subst, ◌∙◌}
use native.Mathlib.Nat.{pow-suc, mod-eq_of_lt}
use native.Mathlib.Omega.{arith}
use antenna_guardian_pi_lite.Common.Tests.{◌==◌, if◌then◌else◌}

-- The digit at the place j, counted from the lowest.
unfoldable pub digit : ℕ → ℕ → ℕ
digit a zero = a % 2
digit a (suc j) = digit (a / 2) j

module _ (z : ℕ → ℕ) (f : ℕ → ℕ → ℕ) where
  digits-fuel : (n m a b : ℕ) → a ≤ n → a ≤ m → digits z f n a b ≡ digits z f m a b
  digits-fuel n m zero b p q = run_out n b ∙ sym (run_out m b)
    where
      run_out : (n b : ℕ) → digits z f n 0 b ≡ z b
      run_out zero b = refl
      run_out (suc n) b = refl
  digits-fuel zero m (suc a) b p q = absurd (omega arith)
  digits-fuel (suc n) zero (suc a) b p q = absurd (omega arith)
  digits-fuel (suc n) (suc m) (suc a) b p q =
      ap (λ d. d * 2 + f (suc a % 2) (b % 2))
        (digits-fuel n m (suc a / 2) (b / 2) (omega arith) (omega arith))

  -- One digit at a time, where `z` goes on in the same way.
  bitwise_step :
      ((b : ℕ) → z b ≡ z (b / 2) * 2 + f 0 (b % 2))
      → (a b : ℕ) → bitwise z f a b ≡ bitwise z f (a / 2) (b / 2) * 2 + f (a % 2) (b % 2)
  bitwise_step h zero b = h b
  bitwise_step h (suc a) b =
      ap (λ d. d * 2 + f (suc a % 2) (b % 2))
        (digits-fuel a (suc a / 2) (suc a / 2) (b / 2) (omega arith) (omega arith))

pub bit_or_step : (a b : ℕ) → bit_or a b ≡ bit_or (a / 2) (b / 2) * 2 + max (a % 2) (b % 2)
bit_or_step a b = omega (
  arith,
  bit_or-bitwise a b,
  bit_or-bitwise (a / 2) (b / 2),
  bitwise_step (λ b. b) max (λ b. omega arith) a b,
)

pub bit_and_halves : (a b : ℕ) → bit_and a b ≡ bit_and (a / 2) (b / 2) * 2 + min (a % 2) (b % 2)
bit_and_halves a b = omega (
  arith,
  bit_and-bitwise a b,
  bit_and-bitwise (a / 2) (b / 2),
  bitwise_step (λ b. 0) min (λ b. omega arith) a b,
)

pub digit-bit_or : (a b j : ℕ) → digit (bit_or a b) j ≡ max (digit a j) (digit b j)
unfolding digit
digit-bit_or a b zero = omega (arith, bit_or_step a b)
digit-bit_or a b (suc j) =
    let half : bit_or a b / 2 ≡ bit_or (a / 2) (b / 2) = omega (arith, bit_or_step a b) in
    rw half (digit-bit_or (a / 2) (b / 2) j)

pub digit-zero : (j : ℕ) → digit 0 j ≡ 0
unfolding digit
digit-zero zero = omega arith
digit-zero (suc j) = digit-zero j

pub digit-pow : (i j : ℕ) → digit (2 ^ i) j ≡ (if i == j then 1 else 0)
unfolding digit
digit-pow zero zero = omega arith
digit-pow zero (suc j) = ground (arith, digit-zero j)
digit-pow (suc i) zero = ground (arith, pow-suc 2 i)
digit-pow (suc i) (suc j) =
    let half : 2 ^ suc i / 2 ≡ 2 ^ i = omega (arith, pow-suc 2 i) in
    rw half (ground (arith, digit-pow i j))

bit_and-zero_right : (n a : ℕ) → a ≤ n → bit_and a 0 ≡ 0
bit_and-zero_right n zero h = bit_and-bitwise 0 0
bit_and-zero_right zero (suc a) h = absurd (omega arith)
bit_and-zero_right (suc n) (suc a) h =
    omega (arith, bit_and_halves (suc a) 0, bit_and-zero_right n (suc a / 2) (omega arith))

-- A mask of one digit.
pub bit_and-pow : (a j : ℕ) → bit_and a (2 ^ j) ≡ digit a j * 2 ^ j
unfolding digit
bit_and-pow a zero =
    omega (arith, bit_and_halves a 1, bit_and-zero_right (a / 2) (a / 2) (omega arith))
bit_and-pow a (suc j) =
    let half : 2 ^ suc j / 2 ≡ 2 ^ j = omega (arith, pow-suc 2 j) in
    let even : 2 ^ suc j % 2 ≡ 0 = omega (arith, pow-suc 2 j) in
    let shifted : bit_and a (2 ^ suc j) ≡ bit_and (a / 2) (2 ^ j) * 2 =
      bit_and_halves a (2 ^ suc j) ∙ rw (half, even) (omega arith) in
    let twice : digit (a / 2) j * 2 ^ suc j ≡ digit (a / 2) j * 2 ^ j * 2 =
      ap (λ t. digit (a / 2) j * t) (pow-suc 2 j) ∙ omega arith in
    shifted ∙ ap (λ t. t * 2) (bit_and-pow (a / 2) j) ∙ sym twice

pub digit_le : (a j : ℕ) → digit a j ≤ 1
unfolding digit
digit_le a zero = omega arith
digit_le a (suc j) = digit_le (a / 2) j

pub pow_pos : (j : ℕ) → 0 < 2 ^ j
pow_pos zero = omega arith
pow_pos (suc j) = omega (arith, pow-suc 2 j, pow_pos j)

pow_le_add : (j d : ℕ) → 2 ^ j ≤ 2 ^ (d + j)
pow_le_add j zero = let same : 0 + j ≡ j = omega arith in rw same (omega arith)
pow_le_add j (suc d) =
    let same : suc d + j ≡ suc (d + j) = omega arith in
    rw same (omega (arith, pow-suc 2 (d + j), pow_le_add j d))

-- A power below 2 ^ k is not cut to k bits.
pub pow-mod : (j k : ℕ) → j < k → 2 ^ j % 2 ^ k ≡ 2 ^ j
pow-mod j zero h = elim h [ ]
pow-mod j (suc k) h =
    let same : k - j + j ≡ k = omega arith in
    let below : 2 ^ j ≤ 2 ^ k = subst (λ t. 2 ^ j ≤ 2 ^ t) same (pow_le_add j (k - j)) in
    mod-eq_of_lt (omega (arith, below, pow-suc 2 k, pow_pos k))
