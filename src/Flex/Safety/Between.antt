-- ===== src/Flex/Safety/Between.antt =====
-- The handlers between commands, where they send through set_interlock: given that a command that
-- may be sent leaves the session settled, so do they.
use antenna_guardian_pi_lite.Common.{
  Bool, true, false, not, ◌&&◌, ◌||◌, Option, none, some, ◌≡◌, ◌∙◌, arith, if◌then◌else◌, drop,
}
use antenna_guardian_pi_lite.CString.{Text, codes, starts_with, strchr, strcmp_eq, is_empty}
use antenna_guardian_pi_lite.Config.{Config}
use antenna_guardian_pi_lite.Floats.{Floats}
use antenna_guardian_pi_lite.Flex.Connection.{Env, Session, Flex, exec, pure, Status, success}
use antenna_guardian_pi_lite.Flex.Ensures.{Post, if-Post}
use antenna_guardian_pi_lite.Flex.Fields.{field_value}
use antenna_guardian_pi_lite.Flex.Handlers.{
  Sender, set_interlock, interlock_command, evaluate_context, handle_transmit, interlock_state,
  handle_interlock, handle_payload, handle_status,
}
use antenna_guardian_pi_lite.Flex.Quiet.{core}
use antenna_guardian_pi_lite.Flex.Safety.{context_allows, MayBeSent, Calm, Authorised, Settled}
use antenna_guardian_pi_lite.Flex.Safety.Handlers.{
  interlock_command-MayBeSent, updated, updated-Base, updated-in_progress, updated-pending,
}

module _ {D S : Type 0} ⦃fp : Floats D⦄ (env : Env S) {k : Config} {o : Bool} {i : Text} where
  pub Calm-Settled : (r : Status) (s : Session D S) → Calm k o i (core s) → Settled env k o i r s
  Calm-Settled r s c = record {
    between = record {
      base = c.base;
      deferral = λ e. absurd (ground (arith, e, c.not_pending));
      idle = c.idle;
    };
    left_over = λ _ e. absurd (ground (arith, e, c.not_pending));
  }

module _ {D S : Type 0} ⦃fp : Floats D⦄ (env : Env S) (send : Sender D S) {k : Config} {o : Bool}
    {i : Text}
    (sends : (command : Text) (s : Session D S)
      → Calm k o i (core s)
      → MayBeSent command s.conn
      → Post Authorised (Settled env k o i) (send command s)) where
  pub set_interlock-Settled :
      (ready : Bool) (s : Session D S)
      → Calm k o i (core s)
      → (ready ≡ true → context_allows s.conn ≡ true)
      → Post Authorised (Settled env k o i) (set_interlock send ready s)
  unfolding set_interlock exec
  set_interlock-Settled ready s c h =
      if-Post _ _ (s.conn.observe_only || is_empty s.conn.interlock_id) _ _ s
        (λ off. Calm-Settled env success s c)
        (λ on.
          if-Post _ _ s.conn.command_in_progress _ _ s (λ q. absurd (ground (arith, q, c.idle)))
            (λ q. sends (interlock_command ready s.conn.interlock_id) s c (
              interlock_command-MayBeSent ready s.conn.interlock_id s.conn h (ground (arith, on)))))

  handle_transmit-Settled :
      (payload : Text) (s : Session D S)
      → Calm k o i (core s)
      → Post Authorised (Settled env k o i) (handle_transmit send payload s)
  unfolding handle_transmit exec evaluate_context
  handle_transmit-Settled payload s calm =
      let c = updated payload s.conn in
      let t : Session D S = record s { conn = c } in
      let calm' : Calm k o i (core t) = record {
        base = updated-Base payload s calm.base;
        not_pending = updated-pending payload s.conn ∙ calm.not_pending;
        idle = updated-in_progress payload s.conn ∙ calm.idle;
      } in
      if-Post _ _ (not (context_allows c) && not (is_empty c.interlock_id)) _ _ t
        (λ blocked. set_interlock-Settled false t calm' (λ e. cc))
        (λ fine. Calm-Settled env success t calm')

  interlock_state-Settled :
      (state : Text) (s : Session D S)
      → Calm k o i (core s)
      → Post Authorised (Settled env k o i) (interlock_state send state s)
  unfolding interlock_state exec evaluate_context
  interlock_state-Settled state s c =
      if-Post _ _ (strcmp_eq state (codes "PTT_REQUESTED")) _ _ s
        (λ ptt. set_interlock-Settled (context_allows s.conn) s c (λ e. e))
        (λ _.
          if-Post _ _ (strcmp_eq state (codes "UNKEY_REQUESTED")) _ _ s (λ unkey. off)
            (λ _.
              if-Post _ _ (strcmp_eq state (codes "TRANSMITTING")) _ _ s
                (λ on.
                  if-Post _ _ (not (context_allows s.conn)) _ _ s (λ blocked. off) (λ fine. same))
                (λ _. same)))
    where
      same : Settled env k o i success s
      same = Calm-Settled env success s c

      off :
          Post Authorised
            (Settled env k o i)
            ((if s.conn.observe_only then pure success else set_interlock send false) s)
      off =
          if-Post _ _ s.conn.observe_only _ _ s (λ observing. same)
            (λ _. set_interlock-Settled false s c (λ e. cc))

  handle_payload-Settled :
      (payload : Text) (s : Session D S)
      → Calm k o i (core s)
      → Post Authorised (Settled env k o i) (handle_payload send payload s)
  unfolding handle_payload handle_interlock exec
  handle_payload-Settled payload s c =
      if-Post _ _ (is_empty payload) _ _ s (λ _. same)
        (λ _.
          if-Post _ _ (starts_with (codes "transmit ") payload) _ _ s
            (λ _. handle_transmit-Settled (drop 9 payload) s c)
            (λ _.
              if-Post _ _ (starts_with (codes "interlock ") payload) _ _ s
                (λ _. in_state (field_value (drop 10 payload) (codes "state") 64)) (λ _. same)))
    where
      same : Settled env k o i success s
      same = Calm-Settled env success s c

      in_state :
          (found : Option Text)
          → Post Authorised (Settled env k o i) (
              let m : Flex D S Status = elim found [
                | none ↦ pure success
                | some state ↦ interlock_state send state
              ] in
              m s)
      in_state none = same
      in_state (some state) = interlock_state-Settled state s c

  pub handle_status-Settled :
      (line : Text) (s : Session D S)
      → Calm k o i (core s)
      → Post Authorised (Settled env k o i) (handle_status send line s)
  unfolding handle_status exec
  handle_status-Settled line s c = at_bar (strchr b'|' line)
    where
      at_bar :
          (found : Option Text)
          → Post Authorised (Settled env k o i) (
              let m : Flex D S Status = elim found [
                | none ↦ pure success
                | some separator ↦ handle_payload send (drop 1 separator)
              ] in
              m s)
      at_bar none = Calm-Settled env success s c
      at_bar (some separator) = handle_payload-Settled (drop 1 separator) s c
