-- ===== src/Floats.antt =====
-- `double` as the program uses it. The language of the model has no floating point numbers, so the
-- type and its operations are an interface: comparisons, the literals of src/policy.c and
-- src/config.c, and strtod of the C library. The laws are those of IEEE 754 comparisons, which
-- hold with NaN too (NaN compares false), and of correctly rounded literals: two literals of at most
-- three decimals up to 1000 are compared as the decimals are.
use antenna_guardian_pi_lite.Common.{ℕ, ◌≤◌, Bool, true, ◌≡◌, leb}
use antenna_guardian_pi_lite.CString.{Text}

-- What strtod(text, &end) leaves behind.
pub record Strtod (D : Type 0) : Type 0 where
  pub value : D
  pub rest : Text  -- the text from `end` on
  pub converted : Bool  -- end != text
  pub range_ok : Bool  -- errno == 0

pub record Floats (D : Type 0) : Type 0 where
  pub le : D → D → Bool  -- a <= b
  pub zero_value : D  -- 0.0
  pub milli : ℕ → D  -- the literal of n thousandths: 18068 is 18.068
  pub strtod : Text → Strtod D
  pub le_trans : (a b c : D) → le a b ≡ true → le b c ≡ true → le a c ≡ true
  pub le-milli : (m n : ℕ) → m ≤ 1000000 → n ≤ 1000000 → le (milli m) (milli n) ≡ leb m n
