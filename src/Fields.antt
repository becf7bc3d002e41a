-- ===== src/Fields.antt =====
-- The loop that src/flex.c and src/discovery.c both have under the name field_value: it looks for
-- `field=value` among the space-separated tokens of a payload. What they do with the value differs,
-- and is the argument `store`: none is false.
pub mod Segments
use antenna_guardian_pi_lite.Common.{
  ℕ, zero, suc, Bool, false, ◌&&◌, [], ◌∷◌, Option, none, some, ◌==◌, if◌then◌else◌, length, drop,
}
use antenna_guardian_pi_lite.CString.{Text, strlen, starts_with, before, strchr}

unfoldable pub skip_spaces : Text → Text
skip_spaces [] = []
skip_spaces (c ∷ cs) = if c == b' ' then skip_spaces cs else c ∷ cs

-- The text from token_end on: from the next space, or the end of the string.
unfoldable pub token_end : Text → Text
token_end [] = []
token_end (c ∷ cs) = if c == b' ' then c ∷ cs else token_end cs

-- equals != NULL, and the length and the bytes in front of it are those of the field.
unfoldable pub names_field : Text → Text → Option Text → Bool
names_field cursor field none = false
names_field cursor field (some equals) =
    length (before b'=' cursor) == strlen field && starts_with field cursor

unfoldable pub store_at : (Text → Option Text) → Option Text → Option Text
store_at store none = none
store_at store (some equals) = store (drop 1 equals)

-- Each round starts with the cursor behind the last token.
unfoldable pub field_loop : (Text → Option Text) → ℕ → Text → Text → Option Text
unfolding store_at
field_loop store zero payload field = none
field_loop store (suc fuel) [] field = none
field_loop store (suc fuel) (c ∷ cs) field =
    let cursor = skip_spaces (c ∷ cs) in
    let equals = strchr b'=' (before b' ' cursor) in
    let later = field_loop store fuel (token_end cursor) field in
    if names_field cursor field equals then store_at store equals else later

-- One round for each byte, and one for the end.
unfoldable pub search_field : (Text → Option Text) → Text → Text → Option Text
unfolding field_loop skip_spaces token_end names_field
search_field store payload field = field_loop store (suc (strlen payload)) payload field
