-- ===== src/Flex/Lines.antt =====
-- extract_line of src/flex.c: the lines of a receive buffer.
use antenna_guardian_pi_lite.Common.{
  ℕ, ◌+◌, ◌≤◌, [], ◌∷◌, ◌++◌, none, some, true, ◌≡◌, ◌≢◌, refl, ap, ◌∙◌, inl, inr, arith, leb,
  length, Bool-cases, ◌==◌,
}
use antenna_guardian_pi_lite.CString.{Text, strlen, before, strchr}
use antenna_guardian_pi_lite.Flex.Connection.{Connection, line_buffer}
use antenna_guardian_pi_lite.Flex.Buffer.{got_line, chop_cr, extract_line}

before-append : (b : ℕ) (s t : Text) → strchr b s ≡ none → before b (s ++ b ∷ t) ≡ s
unfolding before strchr
before-append b [] t h = ground arith
before-append b (c ∷ s) t h = ground (arith, before-append b s t)

strchr-append : (b : ℕ) (s t : Text) → strchr b s ≡ none → strchr b (s ++ b ∷ t) ≡ some (b ∷ t)
unfolding strchr
strchr-append b [] t h = ground arith
strchr-append b (c ∷ s) t h = ground (arith, strchr-append b s t)

length-chop_cr : (s : Text) → length (chop_cr s) ≤ length s
unfolding chop_cr
length-chop_cr [] = omega arith
length-chop_cr (c ∷ []) = ground arith
length-chop_cr (c ∷ d ∷ s) = omega (arith, length-chop_cr (d ∷ s))

length-before_newline : (s t : Text) → length s + 1 ≤ length (s ++ b'\n' ∷ t)
length-before_newline [] t = omega arith
length-before_newline (c ∷ s) t = omega (arith, length-before_newline s t)

leb-true : (m n : ℕ) → m ≤ n → leb m n ≡ true
leb-true m n h = ground arith

-- A line with the '\r' that stands at its end, or without one: what is in front of it.
pub data Ends (content : Text) : Text → Type 0 where
  with_cr : Ends content (content ++ b'\r' ∷ [])
  without_cr : ((front : Text) → content ≢ front ++ b'\r' ∷ []) → Ends content content

-- Bytes as a C string: they have no NUL, or the string is what is in front of the first one.
pub data Reads (string : Text) : Text → Type 0 where
  whole : strchr 0 string ≡ none → Reads string string
  cut : (behind : Text) → strchr 0 string ≡ none → Reads string (string ++ 0 ∷ behind)

chop_cr-append : (content : Text) → chop_cr (content ++ b'\r' ∷ []) ≡ content
unfolding chop_cr
chop_cr-append [] = refl
chop_cr-append (c ∷ []) = refl
chop_cr-append (c ∷ d ∷ content) = ap (◌∷◌ c) (chop_cr-append (d ∷ content))

chop_cr-without :
    (content : Text) → ((front : Text) → content ≢ front ++ b'\r' ∷ []) → chop_cr content ≡ content
unfolding chop_cr
chop_cr-without [] h = refl
chop_cr-without (c ∷ []) h = elim (Bool-cases (c == b'\r')) [
  | inl cr ↦ absurd (h [] (ap (λ b. b ∷ []) (ground (arith, cr))))
  | inr other ↦ rw other refl
]
chop_cr-without (c ∷ d ∷ content) h =
    ap (◌∷◌ c) (chop_cr-without (d ∷ content) (λ front e. h (c ∷ front) (ap (◌∷◌ c) e)))

chop_cr-Ends : {content line : Text} → Ends content line → chop_cr line ≡ content
chop_cr-Ends {content} with_cr = chop_cr-append content
chop_cr-Ends {content} (without_cr h) = chop_cr-without content h

before-none : (b : ℕ) (s : Text) → strchr b s ≡ none → before b s ≡ s
unfolding before strchr
before-none b [] h = refl
before-none b (c ∷ s) h = ground (arith, before-none b s)

before-Reads : {string bytes : Text} → Reads string bytes → before 0 bytes ≡ string
before-Reads {string} (whole h) = before-none 0 string h
before-Reads {string} (cut behind h) = before-append 0 string behind h

-- Of a buffer that fits and whose first line is `line`: extract_line returns that line without a '\r'
-- at its end, up to its first NUL, and leaves what is behind the newline. It never reports a line too
-- long.
pub extract_line-newline :
    {D : Type 0} (c : Connection D) (line content string rest : Text)
    → c.receive_buffer ≡ line ++ b'\n' ∷ rest
    → strchr b'\n' line ≡ none
    → length c.receive_buffer ≤ line_buffer
    → Ends content line
    → Reads string content
    → extract_line line_buffer c ≡ (got_line string, record c { receive_buffer = rest })
unfolding extract_line
extract_line-newline c line content string rest e h fits ends reads =
    let found = strchr-append b'\n' line rest h in
    let in_front = before-append b'\n' line rest h in
    let room : length (line ++ b'\n' ∷ rest) ≤ line_buffer = rw e at fits in
    let bound : strlen (chop_cr line) + 1 ≤ line_buffer =
      omega (arith, room, length-chop_cr line, length-before_newline line rest) in
    let short : leb (strlen (chop_cr line) + 1) line_buffer ≡ true = leb-true _ _ bound in
    let shown : before 0 (chop_cr line) ≡ string =
      ap (before 0) (chop_cr-Ends ends) ∙ before-Reads reads in
    rw (e, found, in_front, short)
      (ap (λ t. (got_line t, record c { receive_buffer = rest })) shown)
