-- ===== src/Flex/Fields.antt =====
-- field_value of src/flex.c: a value that does not fit the buffer is cut.
use antenna_guardian_pi_lite.Common.{ℕ, Option, some}
use antenna_guardian_pi_lite.CString.{Text, bounded}
use antenna_guardian_pi_lite.Fields.{search_field}

unfoldable pub field_value : Text → Text → ℕ → Option Text
unfolding search_field
field_value payload field value_size = search_field (λ v. some (bounded value_size v)) payload field
