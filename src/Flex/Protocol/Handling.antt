-- ===== src/Flex/Protocol/Handling.antt =====
-- The handlers of src/flex.c keep every invariant that the updates of the context and set_interlock keep.
use antenna_guardian_pi_lite.Common.{
  Bool, false, not, ◌&&◌, Option, none, some, List, if◌then◌else◌, drop,
}
use antenna_guardian_pi_lite.CString.{Text, codes, starts_with, strchr, strcmp_eq, is_empty}
use antenna_guardian_pi_lite.Floats.{Floats}
use antenna_guardian_pi_lite.Flex.Connection.{Sent, Session, Flex, exec, pure, Status, success}
use antenna_guardian_pi_lite.Flex.Ensures.{Post, if-Post}
use antenna_guardian_pi_lite.Flex.Fields.{field_value}
use antenna_guardian_pi_lite.Flex.Handlers.{
  Sender, set_interlock, evaluate_context, handle_transmit, interlock_state, handle_interlock,
  handle_payload, handle_status,
}
use antenna_guardian_pi_lite.Flex.Quiet.{Core, core}
use antenna_guardian_pi_lite.Flex.Safety.Handlers.{updated}

module _ {D S : Type 0} ⦃fp : Floats D⦄ (send : Sender D S) (I : Session D S → Type 0)
    (J : Core D × List (Sent D) → Type 0)
    (updates : (payload : Text) (s : Session D S)
      → J (core s)
      → J (core (record s { conn = updated payload s.conn })))
    (sets : (ready : Bool) (s : Session D S)
      → J (core s)
      → Post I (λ r t. J (core t)) (set_interlock send ready s)) where
  abbrev Kept : Flex D S Status → Session D S → Type 0
  Kept m s = Post I (λ r t. J (core t)) (m s)

  handle_transmit-Kept :
      (payload : Text) (s : Session D S) → J (core s) → Kept (handle_transmit send payload) s
  unfolding handle_transmit exec evaluate_context
  handle_transmit-Kept payload s j =
      let t : Session D S = record s { conn = updated payload s.conn } in
      if-Post _ _ (not (evaluate_context t.conn).allowed && not (is_empty t.conn.interlock_id)) _ _
        t (λ blocked. sets false t (updates payload s j)) (λ fine. updates payload s j)

  interlock_state-Kept :
      (state : Text) (s : Session D S) → J (core s) → Kept (interlock_state send state) s
  unfolding interlock_state exec
  interlock_state-Kept state s j =
      if-Post _ _ (strcmp_eq state (codes "PTT_REQUESTED")) _ _ s (λ ptt. sets _ s j)
        (λ _.
          if-Post _ _ (strcmp_eq state (codes "UNKEY_REQUESTED")) _ _ s (λ unkey. off)
            (λ _.
              if-Post _ _ (strcmp_eq state (codes "TRANSMITTING")) _ _ s
                (λ on.
                  if-Post _ _ (not (evaluate_context s.conn).allowed) _ _ s (λ blocked. off)
                    (λ fine. j))
                (λ _. j)))
    where
      off : Kept (if s.conn.observe_only then pure success else set_interlock send false) s
      off = if-Post _ _ s.conn.observe_only _ _ s (λ observing. j) (λ _. sets false s j)

  handle_payload-Kept :
      (payload : Text) (s : Session D S) → J (core s) → Kept (handle_payload send payload) s
  unfolding handle_payload handle_interlock exec
  handle_payload-Kept payload s j =
      if-Post _ _ (is_empty payload) _ _ s (λ _. j)
        (λ _.
          if-Post _ _ (starts_with (codes "transmit ") payload) _ _ s
            (λ _. handle_transmit-Kept (drop 9 payload) s j)
            (λ _.
              if-Post _ _ (starts_with (codes "interlock ") payload) _ _ s
                (λ _. in_state (field_value (drop 10 payload) (codes "state") 64)) (λ _. j)))
    where
      in_state :
          (found : Option Text)
          → Kept (elim found [ none ↦ pure success | some state ↦ interlock_state send state ]) s
      in_state none = j
      in_state (some state) = interlock_state-Kept state s j

  pub handle_status-Kept :
      (line : Text) (s : Session D S) → J (core s) → Kept (handle_status send line) s
  unfolding handle_status exec
  handle_status-Kept line s j = at_bar (strchr b'|' line)
    where
      at_bar :
          (found : Option Text)
          → Kept
              (elim found [
                | none ↦ pure success
                | some separator ↦ handle_payload send (drop 1 separator)
              ])
              s
      at_bar none = j
      at_bar (some separator) = handle_payload-Kept (drop 1 separator) s j
