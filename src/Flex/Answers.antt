-- ===== src/Flex/Answers.antt =====
-- parse_response of src/flex.c on a printed response.
use antenna_guardian_pi_lite.Common.{
  ℕ, suc, ◌%◌, ◌^◌, ◌≤◌, ◌<◌, ◌∷◌, ◌++◌, some, ◌≡◌, refl, ap, ◌∙◌, arith,
}
use native.Mathlib.Nat.{mod-eq_of_lt}
use antenna_guardian_pi_lite.CString.{Text}
use antenna_guardian_pi_lite.CString.Numbers.{print_digits, print_unsigned, ulong_max}
use antenna_guardian_pi_lite.CString.Printed.{strtoul-print_digits}
use antenna_guardian_pi_lite.Flex.Responses.{
  number_field, response_code, response_sequence, parse_response,
}

-- "R%u|%lx|%s"
abbrev pub response_line : ℕ → ℕ → Text → Text
response_line sequence code body =
    b'R' ∷ (print_unsigned sequence ++ b'|' ∷ (print_digits 16 16 code ++ b'|' ∷ body))

number_field-print_digits :
    (base width n : ℕ) (r : Text)
    → 1 < base
    → base ≤ 16
    → n < base ^ suc width
    → n ≤ ulong_max
    → number_field base (print_digits (suc width) base n ++ b'|' ∷ r) ≡ some (n, r)
unfolding number_field
number_field-print_digits base width n r above below fits small =
    let read = strtoul-print_digits base above below width n r fits small in
    rw read (ap (λ t. some (t.value, r)) read)

print_unsigned-print_digits : (n : ℕ) → print_unsigned n ≡ print_digits 10 10 n
unfolding print_unsigned
print_unsigned-print_digits n = refl

parse_response-R : (t : Text) → parse_response (b'R' ∷ t) ≡ response_sequence (number_field 10 t)
unfolding parse_response
parse_response-R t = refl

-- A response that is printed with a sequence number of 32 bits in decimal and a code of 64 bits in
-- hexadecimal is read back as it is, whatever its body.
pub parse_response-response_line :
    (sequence code : ℕ) (body : Text)
    → sequence < 2 ^ 32
    → code < 2 ^ 64
    → parse_response (response_line sequence code body)
      ≡ some (record { sequence = sequence; code = code; body = body })
unfolding response_sequence response_code
parse_response-response_line sequence code body s c =
    let first =
      number_field-print_digits 10 9 sequence (print_digits 16 16 code ++ b'|' ∷ body) (omega arith)
        (omega arith) (omega (arith, s)) (omega (arith, s)) in
    let second =
      number_field-print_digits 16 15 code body (omega arith) (omega arith) (omega (arith, c))
        (omega (arith, c)) in
    let kept : sequence % 2 ^ 32 ≡ sequence = mod-eq_of_lt s in
    parse_response-R _
    ∙ ap
        (λ t.
          response_sequence
            (number_field 10 (t ++ b'|' ∷ (print_digits 16 16 code ++ b'|' ∷ body))))
        (print_unsigned-print_digits sequence)
    ∙ ap response_sequence first
    ∙ ap (response_code (sequence % 2 ^ 32)) second
    ∙ ap (λ n. some (record { sequence = n; code = code; body = body })) kept
