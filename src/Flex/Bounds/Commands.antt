-- ===== src/Flex/Bounds/Commands.antt =====
-- The handlers and send_command keep the bounds of the connection.
use antenna_guardian_pi_lite.Common.{
  ℕ, zero, suc, ◌-◌, ◌≤◌, Bool, true, false, not, ◌&&◌, ◌||◌, List, [], Option, none, some, inl,
  inr, arith, Bool-cases, leb, ltb, if◌then◌else◌, length, drop,
}
use antenna_guardian_pi_lite.CString.{
  Text, codes, strlen, is_empty, strchr, strcmp_eq, strcasecmp_eq, starts_with,
}
use antenna_guardian_pi_lite.Config.{max_antenna_id}
use antenna_guardian_pi_lite.Floats.{Floats}
use antenna_guardian_pi_lite.Flex.Connection.{
  SavedResponse, Connection, Env, Flex, pure, Status, success, failure, line_buffer,
}
use antenna_guardian_pi_lite.Flex.Buffer.{read_failed, nothing, got_line}
use antenna_guardian_pi_lite.Flex.Responses.{Response}
use antenna_guardian_pi_lite.Flex.Fields.{field_value}
use antenna_guardian_pi_lite.Flex.Handlers.{
  Sender, set_interlock, evaluate_context, update_frequency, update_antenna, handle_transmit,
  interlock_state, handle_interlock, handle_payload, handle_status, interlock_command,
}
use antenna_guardian_pi_lite.Flex.Commands.{
  other_line, after_line, await_response, transmit_frame, send_command_once, send_flagged,
  send_deferred, send_through, send_command, send_plain,
}
use antenna_guardian_pi_lite.Flex.Bounds.{
  IsBounded, Bounded, Keeps, bind-Keeps, pure-Keeps, give_up-Keeps, get-Keeps, call-Keeps,
  push_trace-Keeps, modify-Keeps, if-Keeps, option-Keeps,
}
use antenna_guardian_pi_lite.Flex.Bounds.Reading.{
  read_line-Keeps, send_all-Keeps, may_go_on-Keeps, take_saved-Keeps, save_response-fits,
  with_slots,
}

update_frequency-Bounded :
    {D : Type 0} ⦃fp : Floats D⦄ (value : Option Text) (c : Connection D)
    → Bounded c
    → Bounded (update_frequency value c)
unfolding update_frequency
update_frequency-Bounded none c b = b
update_frequency-Bounded (some value) c b = b

with_antenna :
    {buffer id antenna : Text} {slots : List SavedResponse} (new : Text)
    → length new ≤ max_antenna_id
    → IsBounded buffer id antenna slots
    → IsBounded buffer id new slots
with_antenna new h b = record {
  buffer_fits = b.buffer_fits;
  id_fits = b.id_fits;
  antenna_fits = h;
  slots_are = b.slots_are;
  bodies_fit = b.bodies_fit;
}

update_antenna-Bounded :
    {D : Type 0} (value : Option Text) (c : Connection D)
    → Bounded c
    → Bounded (update_antenna value c)
unfolding update_antenna
update_antenna-Bounded none c b = b
update_antenna-Bounded (some value) c b =
    elim (Bool-cases (strcasecmp_eq value (codes "INVALID"))) [
      | inl invalid ↦ rw (update_antenna, invalid) (with_antenna [] (omega arith) b)
      | inr valid ↦ elim (Bool-cases (ltb max_antenna_id (strlen value))) [
        | inl long ↦ rw (update_antenna, valid, long) (with_antenna [] (omega arith) b)
        | inr fits ↦ rw (update_antenna, valid, fits) (with_antenna value (ground (arith, fits)) b)
      ]
    ]

module _ {D S : Type 0} ⦃fp : Floats D⦄ (send : Sender D S)
    (send-Keeps : (command : Text) → Keeps (send command)) where
  pub set_interlock-Keeps : (ready : Bool) → Keeps (set_interlock send ready)
  unfolding set_interlock
  set_interlock-Keeps ready = bind-Keeps get-Keeps (λ c.
      if-Keeps (c.observe_only || is_empty c.interlock_id) (pure-Keeps _) (
        if-Keeps c.command_in_progress (bind-Keeps (modify-Keeps _ (λ d b. b)) (λ u. pure-Keeps _))
          (send-Keeps (interlock_command ready c.interlock_id))))

  handle_transmit-Keeps : (payload : Text) → Keeps (handle_transmit send payload)
  unfolding handle_transmit
  handle_transmit-Keeps payload = bind-Keeps (modify-Keeps _ (update_frequency-Bounded _)) (λ u.
      bind-Keeps (modify-Keeps _ (update_antenna-Bounded _)) (λ v. bind-Keeps get-Keeps (λ c.
        if-Keeps (not (evaluate_context c).allowed && not (is_empty c.interlock_id))
          (set_interlock-Keeps false) (pure-Keeps _))))

  off-Keeps :
      (observing : Bool) → Keeps (if observing then pure success else set_interlock send false)
  off-Keeps observing = if-Keeps observing (pure-Keeps _) (set_interlock-Keeps false)

  interlock_state-Keeps : (state : Text) → Keeps (interlock_state send state)
  unfolding interlock_state
  interlock_state-Keeps state = bind-Keeps get-Keeps (λ c.
      if-Keeps (strcmp_eq state (codes "PTT_REQUESTED"))
        (set_interlock-Keeps (evaluate_context c).allowed)
        (if-Keeps (strcmp_eq state (codes "UNKEY_REQUESTED")) (off-Keeps c.observe_only) (
          if-Keeps (strcmp_eq state (codes "TRANSMITTING"))
            (if-Keeps (not (evaluate_context c).allowed) (off-Keeps c.observe_only) (pure-Keeps _))
            (pure-Keeps _))))

  handle_payload-Keeps : (payload : Text) → Keeps (handle_payload send payload)
  unfolding handle_payload handle_interlock
  handle_payload-Keeps payload = if-Keeps (is_empty payload) (pure-Keeps _) (
      if-Keeps (starts_with (codes "transmit ") payload) (handle_transmit-Keeps (drop 9 payload)) (
        if-Keeps (starts_with (codes "interlock ") payload)
          (option-Keeps (field_value (drop 10 payload) (codes "state") 64) (pure-Keeps _)
            interlock_state-Keeps)
          (pure-Keeps _)))

  pub handle_status-Keeps : (line : Text) → Keeps (handle_status send line)
  unfolding handle_status
  handle_status-Keeps line =
      option-Keeps (strchr b'|' line) (pure-Keeps _)
        (λ separator. handle_payload-Keeps (drop 1 separator))

module _ {D S : Type 0} ⦃fp : Floats D⦄ (env : Env S) (handle : Text → Flex D S Status)
    (handle-Keeps : (line : Text) → Keeps (handle line)) where
  other_line-Keeps :
      (cleanup : Bool) (r : Option Response) (line : Text)
      → Keeps (other_line env handle cleanup r line)
  unfolding other_line
  other_line-Keeps cleanup (some r) line =
      bind-Keeps (modify-Keeps _ (λ c b. with_slots _ (save_response-fits r c.saved_responses) b))
        (λ u. pure-Keeps _)
  other_line-Keeps cleanup none line = bind-Keeps (handle-Keeps line) (λ status. pure-Keeps _)

  after_line-Keeps :
      (again : Flex D S (Option Text)) (size : ℕ) (cleanup : Bool) (line : Text)
      (response answer : Option Response)
      → Keeps again
      → Keeps (after_line env handle again size cleanup line response answer)
  unfolding after_line
  after_line-Keeps again size cleanup line response (some answer) h = pure-Keeps _
  after_line-Keeps again size cleanup line response none h =
      bind-Keeps (other_line-Keeps cleanup response line)
        (elim [ true ↦ pure-Keeps none | false ↦ h ])

  await_response-Keeps :
      (fuel sequence deadline size : ℕ) (cleanup : Bool)
      → Keeps (await_response env handle fuel sequence deadline size cleanup)
  unfolding await_response
  await_response-Keeps zero sequence deadline size cleanup = give_up-Keeps _
  await_response-Keeps (suc fuel) sequence deadline size cleanup =
      bind-Keeps (may_go_on-Keeps env cleanup) (elim [
        | false ↦ pure-Keeps none
        | true ↦ bind-Keeps (call-Keeps _) (λ now.
            bind-Keeps (take_saved-Keeps env sequence) (elim [
              | some (code, body) ↦ pure-Keeps _
              | none ↦ if-Keeps (leb deadline now) (pure-Keeps none) (
                  bind-Keeps (read_line-Keeps env (suc fuel) line_buffer (deadline - now)) (elim [
                    | read_failed ↦ pure-Keeps none
                    | nothing ↦ pure-Keeps none
                    | got_line line ↦
                        after_line-Keeps _ size cleanup line _ _
                          (await_response-Keeps fuel sequence deadline size cleanup)
                  ]))
            ]))
      ])

  transmit_frame-Keeps :
      (fuel : ℕ) (command : Text) (sequence deadline size : ℕ) (cleanup : Bool)
      → Keeps (transmit_frame env handle fuel command sequence deadline size cleanup)
  unfolding transmit_frame
  transmit_frame-Keeps fuel command sequence deadline size cleanup = if-Keeps _ (pure-Keeps none) (
      bind-Keeps (push_trace-Keeps command _) (λ u. bind-Keeps (send_all-Keeps env fuel _) (elim [
        | failure ↦ pure-Keeps none
        | success ↦ await_response-Keeps fuel sequence deadline size cleanup
      ])))

  send_command_once-Keeps :
      (fuel : ℕ) (command : Text) (size : ℕ) (cleanup : Bool)
      → Keeps (send_command_once env handle fuel command size cleanup)
  unfolding send_command_once
  send_command_once-Keeps fuel command size cleanup = bind-Keeps (modify-Keeps _ (λ c b. b)) (λ u.
      bind-Keeps get-Keeps (λ c. bind-Keeps (call-Keeps _) (λ now.
        bind-Keeps (call-Keeps _) (λ stop.
          if-Keeps _ (pure-Keeps none) (transmit_frame-Keeps fuel command _ _ size cleanup)))))

  send_flagged-Keeps :
      (fuel : ℕ) (command : Text) (size : ℕ) (cleanup : Bool)
      → Keeps (send_flagged env handle fuel command size cleanup)
  unfolding send_flagged
  send_flagged-Keeps fuel command size cleanup = bind-Keeps (modify-Keeps _ (λ c b. b)) (λ u.
      bind-Keeps (send_command_once-Keeps fuel command size cleanup)
        (λ result. bind-Keeps (modify-Keeps _ (λ c b. b)) (λ v. pure-Keeps result)))

  send_deferred-Keeps : (fuel : ℕ) → Keeps (send_deferred env handle fuel)
  unfolding send_deferred
  send_deferred-Keeps zero = give_up-Keeps _
  send_deferred-Keeps (suc fuel) = bind-Keeps get-Keeps (λ c.
      bind-Keeps (if-Keeps c.interlock_update_pending (call-Keeps _) (pure-Keeps true)) (elim [
        | true ↦ pure-Keeps success
        | false ↦ bind-Keeps (modify-Keeps _ (λ d b. b)) (λ u.
            bind-Keeps (send_flagged-Keeps (suc fuel) _ 0 false)
              (elim [ none ↦ pure-Keeps failure | some body ↦ send_deferred-Keeps fuel ]))
      ]))

  send_through-Keeps :
      (fuel : ℕ) (command : Text) (size : ℕ) (cleanup : Bool)
      → Keeps (send_through env handle fuel command size cleanup)
  unfolding send_through
  send_through-Keeps fuel command size cleanup = bind-Keeps get-Keeps (λ c.
      if-Keeps c.command_in_progress (pure-Keeps none) (
        bind-Keeps (send_flagged-Keeps fuel command size cleanup) (elim [
          | none ↦ pure-Keeps none
          | some body ↦
              if-Keeps cleanup (pure-Keeps (some body))
                (bind-Keeps (send_deferred-Keeps fuel) (λ status. pure-Keeps _))
        ])))

module _ {D S : Type 0} ⦃fp : Floats D⦄ (env : Env S) where
  pub send_command-Keeps :
      (depth fuel : ℕ) (command : Text) (size : ℕ) (cleanup : Bool)
      → Keeps {D = D} (send_command env depth fuel command size cleanup)
  unfolding send_command
  send_command-Keeps zero fuel command size cleanup = give_up-Keeps _
  send_command-Keeps (suc depth) fuel command size cleanup =
      send_through-Keeps env _
        (handle_status-Keeps _ (λ nested.
          bind-Keeps (send_command-Keeps depth fuel nested 0 false) (λ result. pure-Keeps _)))
        fuel command size cleanup

  pub send_plain-Keeps :
      (depth fuel : ℕ) (command : Text) → Keeps {D = D} (send_plain env depth fuel command)
  unfolding send_plain
  send_plain-Keeps depth fuel command =
      bind-Keeps (send_command-Keeps depth fuel command 0 false) (λ result. pure-Keeps _)
