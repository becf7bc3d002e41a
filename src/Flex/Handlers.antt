-- ===== src/Flex/Handlers.antt =====
-- set_interlock, handle_transmit, handle_interlock and handle_status of src/flex.c. They send
-- commands through a parameter, which Flex/Commands fills with send_command. ag_log and
-- log_decision, which only print, have no part in the model.
use antenna_guardian_pi_lite.Common.{
  Bool, true, false, not, ◌&&◌, ◌||◌, [], ◌++◌, Option, none, some, ltb, if◌then◌else◌, drop,
}
use antenna_guardian_pi_lite.CString.{
  Text, codes, is_empty, strlen, strcmp_eq, strcasecmp_eq, starts_with, strchr, bounded,
}
use antenna_guardian_pi_lite.Config.{max_antenna_id}
use antenna_guardian_pi_lite.Floats.{Floats}
use antenna_guardian_pi_lite.Policy.{PolicyDecision, ag_policy_evaluate}
use antenna_guardian_pi_lite.Flex.Connection.{
  Connection, Flex, ◌>>=◌, ◌>>◌, pure, get, modify, Status, success, short_command_size,
}
use antenna_guardian_pi_lite.Flex.Fields.{field_value}

-- send_command(connection, command, NULL, 0u, false)
abbrev pub Sender : Type 0 → Type 0 → Type 0
Sender D S = Text → Flex D S Status

-- snprintf(command, 128, "interlock %s %s", ready ? "ready" : "not_ready", interlock_id)
unfoldable pub interlock_command : Bool → Text → Text
interlock_command ready interlock_id =
    bounded short_command_size
      ((if ready then codes "interlock ready " else codes "interlock not_ready ") ++ interlock_id)

module _ {D S : Type 0} (send : Sender D S) where
  unfoldable pub set_interlock : Bool → Flex D S Status
  unfolding interlock_command
  set_interlock ready = do
    c ← get
    if c.observe_only || is_empty c.interlock_id
        then pure success
        else if c.command_in_progress
        then (do
          modify
              (λ c. record c { interlock_update_pending = true; pending_interlock_ready = ready })
          pure success)
        else send (interlock_command ready c.interlock_id)

module _ {D : Type 0} ⦃fp : Floats D⦄ where
  -- ag_policy_evaluate on the context of the connection.
  unfoldable pub evaluate_context : Connection D → PolicyDecision
  evaluate_context c =
      ag_policy_evaluate c.config c.has_frequency c.frequency_mhz (some c.tx_antenna)

  -- `freq=`: the whole value must be a number in range.
  unfoldable pub update_frequency : Option Text → Connection D → Connection D
  update_frequency none c = c
  update_frequency (some value) c =
      let r = fp.strtod value in
      record c {
        frequency_mhz = r.value;
        has_frequency = r.range_ok && (r.converted && is_empty r.rest);
      }

-- `tx_antenna=`
unfoldable pub update_antenna : {D : Type 0} → Option Text → Connection D → Connection D
update_antenna none c = c
update_antenna (some value) c =
    if strcasecmp_eq value (codes "INVALID")
    then record c { has_frequency = false; tx_antenna = [] }
    else if ltb max_antenna_id (strlen value)
    then record c { tx_antenna = [] }
    else record c { tx_antenna = value }

module _ {D S : Type 0} ⦃fp : Floats D⦄ (send : Sender D S) where
  unfoldable pub handle_transmit : Text → Flex D S Status
  unfolding update_frequency update_antenna
  handle_transmit payload = do
    modify (update_frequency (field_value payload (codes "freq") 128))
    modify (update_antenna (field_value payload (codes "tx_antenna") 128))
    c ← get
    if not (evaluate_context c).allowed && not (is_empty c.interlock_id)
        then set_interlock send false
        else pure success

  unfoldable pub interlock_state : Text → Flex D S Status
  interlock_state state = do
    c ← get
    if strcmp_eq state (codes "PTT_REQUESTED")
        then set_interlock send (evaluate_context c).allowed
        else if strcmp_eq state (codes "UNKEY_REQUESTED")
        then (if c.observe_only then pure success else set_interlock send false)
        else if strcmp_eq state (codes "TRANSMITTING")
        then (if not (evaluate_context c).allowed
            then if c.observe_only then pure success else set_interlock send false
            else pure success)
        else pure success

  unfoldable pub handle_interlock : Text → Flex D S Status
  unfolding interlock_state
  handle_interlock payload = elim (field_value payload (codes "state") 64) [
    | none ↦ pure success
    | some state ↦ interlock_state state
  ]

  unfoldable pub handle_payload : Text → Flex D S Status
  unfolding handle_transmit handle_interlock
  handle_payload payload =
      if is_empty payload
      then pure success
      else if starts_with (codes "transmit ") payload
      then handle_transmit (drop 9 payload)
      else if starts_with (codes "interlock ") payload
      then handle_interlock (drop 10 payload)
      else pure success

  -- strchr finds the separator; the payload is behind it.
  unfoldable pub handle_status : Text → Flex D S Status
  unfolding handle_payload
  handle_status line = elim (strchr b'|' line) [
    | none ↦ pure success
    | some separator ↦ handle_payload (drop 1 separator)
  ]
