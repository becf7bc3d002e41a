-- ===== src/CString/Numbers.antt =====
-- strtoul of <stdlib.h>, and the conversions %u and %x of snprintf. `unsigned long` has 64 bits, as
-- on the 64-bit targets of the release builds (on linux-armv7 it has 32), and `unsigned` has 32.
use antenna_guardian_pi_lite.Common.{
  ℕ, zero, suc, ◌+◌, ◌-◌, ◌*◌, ◌/◌, ◌%◌, ◌^◌, Bool, true, false, ◌||◌, [], ◌∷◌, ◌++◌, Option, none,
  some, ltb, leb, ◌==◌, if◌then◌else◌,
}
use antenna_guardian_pi_lite.CString.{Text, within}

abbrev pub ulong_max : ℕ
ulong_max = 2 ^ 64 - 1

unfoldable pub isspace : ℕ → Bool
isspace c = c == b' ' || within 9 13 c

-- The value of a digit or letter, whatever the base.
unfoldable pub digit_value : ℕ → Option ℕ
digit_value c =
    if within b'0' b'9' c
    then some (c - b'0')
    else if within b'a' b'z' c
    then some (c - b'a' + 10)
    else if within b'A' b'Z' c
    then some (c - b'A' + 10)
    else none

below_base : ℕ → Option ℕ → Option ℕ
below_base base none = none
below_base base (some v) = if ltb v base then some v else none

unfoldable pub digit : ℕ → ℕ → Option ℕ
unfolding digit_value below_base
digit base c = below_base base (digit_value c)

-- The longest run of digits: its value behind `acc`, and what follows it.
unfoldable pub read_digits : ℕ → ℕ → Text → ℕ × Text
unfolding digit
read_digits base acc [] = (acc, [])
read_digits base acc (c ∷ cs) = elim (digit base c) [
  | none ↦ (acc, c ∷ cs)
  | some v ↦ read_digits base (acc * base + v) cs
]

unfoldable pub skip_isspace : Text → Text
unfolding isspace
skip_isspace [] = []
skip_isspace (c ∷ cs) = if isspace c then skip_isspace cs else c ∷ cs

unfoldable pub starts_with_digit : ℕ → Text → Bool
unfolding digit
starts_with_digit base [] = false
starts_with_digit base (c ∷ cs) = elim (digit base c) [ none ↦ false | some v ↦ true ]

-- In base 16 a prefix 0x is skipped where a digit follows it.
unfoldable pub skip_prefix : ℕ → Text → Text
unfolding starts_with_digit
skip_prefix base (z ∷ x ∷ cs) =
    if base == 16
    then if z == b'0'
      then if x == b'x' || x == b'X'
        then if starts_with_digit 16 cs then cs else z ∷ x ∷ cs
        else z ∷ x ∷ cs
      else z ∷ x ∷ cs
    else z ∷ x ∷ cs
skip_prefix base s = s

-- What strtoul(text, &end, base) leaves behind.
pub record Strtoul : Type 0 where
  pub value : ℕ
  pub rest : Text  -- the text from `end` on
  pub converted : Bool  -- end != text
  pub range_ok : Bool  -- errno == 0

-- The value that was read, saturated with ERANGE; a minus sign negates in `unsigned long`.
unfoldable pub saturate : Bool → ℕ × Text → Strtoul
saturate negative (n, rest) =
    if leb n ulong_max
    then record {
      value = if negative then (2 ^ 64 - n) % 2 ^ 64 else n;
      rest = rest;
      converted = true;
      range_ok = true;
    }
    else record { value = ulong_max; rest = rest; converted = true; range_ok = false }

-- The digits behind an optional sign.
unfoldable pub convert : ℕ → Bool → Text → Text → Strtoul
unfolding starts_with_digit read_digits skip_prefix saturate
convert base negative text digits =
    if starts_with_digit base digits
    then saturate negative (read_digits base 0 (skip_prefix base digits))
    else record { value = 0; rest = text; converted = false; range_ok = true }

unfoldable pub after_sign : ℕ → Text → Text → Strtoul
unfolding convert
after_sign base text [] = convert base false text []
after_sign base text (c ∷ cs) =
    if c == b'-'
    then convert base true text cs
    else if c == b'+'
    then convert base false text cs
    else convert base false text (c ∷ cs)

unfoldable pub strtoul : ℕ → Text → Strtoul
unfolding skip_isspace after_sign
strtoul base text = after_sign base text (skip_isspace text)

-- The lower-case digit for a value below 16.
unfoldable pub digit_char : ℕ → ℕ
digit_char v = if ltb v 10 then v + b'0' else v - 10 + b'a'

-- At most `width` digits, the most significant first: the value is below base ^ width.
unfoldable pub print_digits : ℕ → ℕ → ℕ → Text
unfolding digit_char
print_digits zero base n = []
print_digits (suc width) base n =
    let more = print_digits width base (n / base) in
    (if ltb n base then [] else more) ++ digit_char (n % base) ∷ []

-- %u: an unsigned has at most 10 decimal digits.
unfoldable pub print_unsigned : ℕ → Text
unfolding print_digits
print_unsigned n = print_digits 10 10 n
