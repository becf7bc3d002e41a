-- ===== src/Flex/Cache.antt =====
-- save_response and take_response of src/flex.c: the cache of responses that came too early.
use antenna_guardian_pi_lite.Common.{
  Bool, true, false, not, ◌||◌, List, [], ◌∷◌, none, some, ◌≡◌, arith,
}
use antenna_guardian_pi_lite.CString.{bounded}
use antenna_guardian_pi_lite.Flex.Connection.{SavedResponse, response_body_size}
use antenna_guardian_pi_lite.Flex.Responses.{Response, save_response, take_response}

-- Some slot is free.
unfoldable pub has_free : List SavedResponse → Bool
has_free [] = false
has_free (slot ∷ slots) = not slot.used || has_free slots

-- A response that is saved while a slot is free and no other response with its number is saved is
-- taken again under its number, with its code and the part of its body that fits.
pub take_response-save_response :
    (r : Response) (slots : List SavedResponse)
    → has_free slots ≡ true
    → (take_response r.sequence slots).0 ≡ none
    → (take_response r.sequence (save_response r slots)).0
      ≡ some (r.code, bounded response_body_size r.body)
unfolding take_response save_response has_free
take_response-save_response r [] h k = cc
take_response-save_response r (slot ∷ slots) h k =
    ground (arith, take_response-save_response r slots)
