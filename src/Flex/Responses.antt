-- ===== src/Flex/Responses.antt =====
-- parse_response, save_response, take_response and accept_response of src/flex.c.
use antenna_guardian_pi_lite.Common.{
  ℕ, ◌%◌, ◌^◌, true, false, ◌&&◌, List, [], ◌∷◌, Option, none, some, ◌==◌, if◌then◌else◌,
}
use antenna_guardian_pi_lite.CString.{Text, bounded}
use antenna_guardian_pi_lite.CString.Numbers.{strtoul}
use antenna_guardian_pi_lite.Flex.Connection.{SavedResponse, response_body_size}

pub record Response : Type 0 where
  pub sequence : ℕ
  pub code : ℕ
  pub body : Text

-- *end != '|', and the text behind it.
unfoldable pub behind_bar : Text → Option Text
behind_bar [] = none
behind_bar (c ∷ cs) = if c == b'|' then some cs else none

-- A number in the base, ended by '|': errno, end and *end are tested.
unfoldable pub number_field : ℕ → Text → Option (ℕ × Text)
unfolding behind_bar
number_field base cursor =
    let r = strtoul base cursor in
    if r.range_ok && r.converted
    then elim (behind_bar r.rest) [ none ↦ none | some rest ↦ some (r.value, rest) ]
    else none

unfoldable pub response_code : ℕ → Option (ℕ × Text) → Option Response
response_code sequence none = none
response_code sequence (some (code, body)) =
    some (record { sequence = sequence; code = code; body = body })

-- `(unsigned)` keeps 32 bits of the sequence.
unfoldable pub response_sequence : Option (ℕ × Text) → Option Response
unfolding number_field response_code
response_sequence none = none
response_sequence (some (sequence, cursor)) =
    response_code (sequence % 2 ^ 32) (number_field 16 cursor)

unfoldable pub parse_response : Text → Option Response
unfolding number_field response_sequence
parse_response [] = none
parse_response (c ∷ cs) = if c == b'R' then response_sequence (number_field 10 cs) else none

-- The first free slot takes the response; a full cache discards it.
unfoldable pub save_response : Response → List SavedResponse → List SavedResponse
save_response r [] = []
save_response r (slot ∷ slots) =
    if slot.used
    then slot ∷ save_response r slots
    else record {
      used = true;
      sequence = r.sequence;
      code = r.code;
      body = bounded response_body_size r.body;
    }
      ∷ slots

-- The first slot with the sequence number is freed; its code and body are returned.
unfoldable pub take_response : ℕ → List SavedResponse → Option (ℕ × Text) × List SavedResponse
take_response sequence [] = (none, [])
take_response sequence (slot ∷ slots) =
    let (found, rest) = take_response sequence slots in
    if slot.used && slot.sequence == sequence
    then (some (slot.code, slot.body), record slot { used = false } ∷ slots)
    else (found, slot ∷ rest)

-- The body that the caller gets, cut to its buffer; none is -1. A response_size of 0 is a NULL
-- buffer.
unfoldable pub accept_response : ℕ → Text → ℕ → Option Text
accept_response code body response_size =
    if code == 0 then some (bounded response_size body) else none
