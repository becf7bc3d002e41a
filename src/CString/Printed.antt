-- ===== src/CString/Printed.antt =====
-- strtoul of <stdlib.h> on what the conversions %u and %x print.
use antenna_guardian_pi_lite.Common.{
  ℕ, zero, suc, ◌+◌, ◌*◌, ◌/◌, ◌%◌, ◌^◌, ◌≤◌, ◌<◌, true, false, ◌||◌, [], ◌∷◌, ◌++◌, some, ◌≡◌,
  refl, ap, subst, ◌∙◌, arith, ltb, leb, ◌==◌, if◌then◌else◌, All, All-append, Bool-cases, inl, inr,
}
use native.Mathlib.Nat.{div-lt_iff_lt-mul, mod-lt, div-eq_of_lt, div-add-mod', pow-zero, pow-suc}
use antenna_guardian_pi_lite.CString.{Text}
use antenna_guardian_pi_lite.CString.Numbers.{
  isspace, digit, read_digits, starts_with_digit, digit_char, print_digits, skip_prefix, saturate,
  convert, strtoul, ulong_max,
}

-- No space, no sign and no `x`.
abbrev pub IsPlain : ℕ → Type 0
IsPlain c = ((isspace c || (c == b'-' || c == b'+')) || (c == b'x' || c == b'X')) ≡ false

digit_char-IsPlain : (v : ℕ) → v < 16 → IsPlain (digit_char v)
unfolding digit_char isspace
digit_char-IsPlain v h = ground arith

digit-digit_char : (base v : ℕ) → v < base → base ≤ 16 → digit base (digit_char v) ≡ some v
unfolding digit digit_char
digit-digit_char base v h k = ground arith

starts_with_digit-digit_char :
    (base v : ℕ) (t : Text)
    → v < base
    → base ≤ 16
    → starts_with_digit base (digit_char v ∷ t) ≡ true
unfolding starts_with_digit
starts_with_digit-digit_char base v t h k = rw (starts_with_digit, digit-digit_char base v h k) refl

append-snoc : (s : Text) (c : ℕ) (t : Text) → (s ++ c ∷ []) ++ t ≡ s ++ c ∷ t
append-snoc [] c t = refl
append-snoc (x ∷ s) c t = ap (◌∷◌ x) (append-snoc s c t)

-- The digits in front of the last one.
abbrev front : ℕ → ℕ → ℕ → Text
front width base n = if ltb n base then [] else print_digits width base (n / base)

module _ (base : ℕ) (above : 1 < base) (below : base ≤ 16) where
  half_fits : (width n : ℕ) → n < base ^ suc width → n / base < base ^ width
  half_fits width n h =
      (div-lt_iff_lt-mul {k = base} {x = n} (omega arith)).1
        (subst (λ t. n < t) (pow-suc base width) h)

  read_digits-front :
      (width n : ℕ) (c : ℕ) (t : Text)
      → ((m : ℕ) (r : Text)
          → m < base ^ width
          → read_digits base 0 (print_digits width base m ++ r) ≡ read_digits base m r)
      → n < base ^ suc width
      → read_digits base 0 (front width base n ++ c ∷ t) ≡ read_digits base (n / base) (c ∷ t)
  read_digits-front width n c t h fits = elim (Bool-cases (ltb n base)) [
    | inl small ↦
        let zero_is : n / base ≡ 0 = div-eq_of_lt (ground (arith, small)) in
        rw (small, zero_is) refl
    | inr large ↦ rw large (h (n / base) (c ∷ t) (half_fits width n fits))
  ]

  read_digits-bar : (n : ℕ) (r : Text) → read_digits base n (b'|' ∷ r) ≡ (n, b'|' ∷ r)
  unfolding read_digits digit
  read_digits-bar n r = refl

  -- The digits of a number that fits in `width` of them, behind nothing and before the rest r.
  read_digits-print_digits :
      (width n : ℕ) (r : Text)
      → n < base ^ width
      → read_digits base 0 (print_digits width base n ++ r) ≡ read_digits base n r
  unfolding print_digits read_digits
  read_digits-print_digits zero n r fits =
      let one_digit : n < 1 = subst (λ t. n < t) (pow-zero base) fits in
      ap (λ m. read_digits base m r) (omega (arith, one_digit))
  read_digits-print_digits (suc width) n r fits =
      let last = n % base in
      let fits_last : last < base = mod-lt n (omega arith) in
      let value : n / base * base + last ≡ n = div-add-mod' n base in
      let one : read_digits base (n / base) (digit_char last ∷ r)
          ≡ read_digits base (n / base * base + last) r =
        rw (read_digits, digit-digit_char base last fits_last below) refl in
      ap (read_digits base 0) (append-snoc (front width base n) (digit_char last) r)
      ∙ read_digits-front width n (digit_char last) r
          (λ m r h. read_digits-print_digits width m r h) fits
      ∙ one
      ∙ ap (λ m. read_digits base m r) value

  front-IsPlain :
      (width n : ℕ)
      → ((m : ℕ) → All IsPlain (print_digits width base m))
      → All IsPlain (front width base n)
  front-IsPlain width n h = elim (Bool-cases (ltb n base)) [
    | inl small ↦ rw small tt
    | inr large ↦ rw large (h (n / base))
  ]

  print_digits-IsPlain : (width n : ℕ) → All IsPlain (print_digits width base n)
  unfolding print_digits
  print_digits-IsPlain zero n = tt
  print_digits-IsPlain (suc width) n =
      let last : n % base < base = mod-lt n (omega arith) in
      All-append IsPlain (front width base n) (digit_char (n % base) ∷ [])
        (front-IsPlain width n (print_digits-IsPlain width))
        (digit_char-IsPlain (n % base) (omega (arith, last)), tt)

  starts_with_digit-print_digits :
      (width n : ℕ) (t : Text)
      → starts_with_digit base (print_digits (suc width) base n ++ t) ≡ true
  unfolding print_digits
  starts_with_digit-print_digits zero n t =
      let alone : starts_with_digit base (digit_char (n % base) ∷ t) ≡ true =
        starts_with_digit-digit_char base (n % base) t (mod-lt n (omega arith)) below in
      elim (Bool-cases (ltb n base)) [ inl small ↦ rw small alone | inr large ↦ rw large alone ]
  starts_with_digit-print_digits (suc width) n t =
      let alone : starts_with_digit base (digit_char (n % base) ∷ t) ≡ true =
        starts_with_digit-digit_char base (n % base) t (mod-lt n (omega arith)) below in
      elim (Bool-cases (ltb n base)) [
        | inl small ↦ rw small alone
        | inr large ↦
            rw
              (
                large,
                append-snoc (print_digits (suc width) base (n / base)) (digit_char (n % base)) t,
              )
              (starts_with_digit-print_digits width (n / base) (digit_char (n % base) ∷ t))
      ]

  skip_prefix-IsPlain :
      (s r : Text) → All IsPlain s → skip_prefix base (s ++ b'|' ∷ r) ≡ s ++ b'|' ∷ r
  unfolding skip_prefix
  skip_prefix-IsPlain [] [] p = refl
  skip_prefix-IsPlain [] (y ∷ r) p = ground arith
  skip_prefix-IsPlain (c ∷ []) r p = ground arith
  skip_prefix-IsPlain (c ∷ d ∷ s) r p = ground (arith, p.1.0)

  strtoul-IsPlain :
      (s r : Text)
      → All IsPlain s
      → starts_with_digit base (s ++ b'|' ∷ r) ≡ true
      → strtoul base (s ++ b'|' ∷ r) ≡ saturate false (read_digits base 0 (s ++ b'|' ∷ r))
  unfolding strtoul convert
  strtoul-IsPlain [] r p h = cc
  strtoul-IsPlain (c ∷ s) r p h =
      let same = skip_prefix-IsPlain (c ∷ s) r p in
      let space : isspace c ≡ false = ground (arith, p.0) in
      let minus : (c == b'-') ≡ false = ground (arith, p.0) in
      let plus : (c == b'+') ≡ false = ground (arith, p.0) in rw (space, minus, plus, h, same) refl

  -- A printed number in front of a '|' is read in full, and the '|' is left.
  pub strtoul-print_digits :
      (width n : ℕ) (r : Text)
      → n < base ^ suc width
      → n ≤ ulong_max
      → strtoul base (print_digits (suc width) base n ++ b'|' ∷ r)
        ≡ record { value = n; rest = b'|' ∷ r; converted = true; range_ok = true }
  unfolding saturate
  strtoul-print_digits width n r fits small =
      let in_range : leb n ulong_max ≡ true = ground (arith, small) in
      strtoul-IsPlain (print_digits (suc width) base n) r (print_digits-IsPlain (suc width) n)
        (starts_with_digit-print_digits width n (b'|' ∷ r))
      ∙ ap (saturate false)
          (read_digits-print_digits (suc width) n (b'|' ∷ r) fits ∙ read_digits-bar n r)
      ∙ rw in_range refl
