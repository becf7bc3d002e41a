-- ===== src/Flex/Commands.antt =====
-- send_all, send_command_once and send_command of src/flex.c. Loops take fuel.
use antenna_guardian_pi_lite.Common.{
  ℕ, zero, suc, ◌+◌, ◌-◌, ◌%◌, ◌^◌, Bool, true, false, not, ◌&&◌, [], ◌∷◌, ◌++◌, Option, none, some,
  leb, ◌==◌, if◌then◌else◌, length, drop,
}
use antenna_guardian_pi_lite.CString.{Text}
use antenna_guardian_pi_lite.CString.Numbers.{print_unsigned}
use antenna_guardian_pi_lite.Floats.{Floats}
use antenna_guardian_pi_lite.Flex.Connection.{
  Env, Flex, ◌>>=◌, ◌>>◌, pure, give_up, get, modify, call, push_trace, Status, success, failure,
  line_buffer, command_size, command_timeout_ms, send_interrupted, send_failed, sent,
}
use antenna_guardian_pi_lite.Flex.Buffer.{read_failed, nothing, got_line, read_line}
use antenna_guardian_pi_lite.Flex.Responses.{
  Response, parse_response, save_response, take_response, accept_response,
}
use antenna_guardian_pi_lite.Flex.Handlers.{interlock_command, handle_status}

-- snprintf(frame, size, "C%u|%s\n", sequence, command)
unfoldable pub frame_of : ℕ → Text → Text
frame_of sequence command = (b'C' ∷ print_unsigned sequence) ++ (b'|' ∷ command) ++ b'\n' ∷ []

-- result != 0, where the body of the response is not wanted
abbrev pub to_status : Option Text → Status
to_status none = failure
to_status (some body) = success

-- response_sequence == sequence
unfoldable pub awaited : ℕ → Option Response → Option Response
awaited sequence none = none
awaited sequence (some r) = if r.sequence == sequence then some r else none

module _ {D S : Type 0} (env : Env S) where
  unfoldable pub send_all : ℕ → Text → Flex D S Status
  send_all zero [] = pure success
  send_all zero (b ∷ bytes) = give_up
  send_all (suc fuel) [] = pure success
  send_all (suc fuel) (b ∷ bytes) = do
    r ← call (env.send (b ∷ bytes))
    elim r [
      | send_interrupted ↦ send_all fuel (b ∷ bytes)
      | send_failed ↦ pure failure
      | sent n ↦
          let again = send_all fuel (drop n (b ∷ bytes)) in if n == 0 then pure failure else again
    ]

  -- The condition of the loop: cleanup_command || !*stop_requested.
  unfoldable pub may_go_on : Bool → Flex D S Bool
  may_go_on cleanup =
      if cleanup then pure true else (do stop ← call env.stop_requested; pure (not stop))

  unfoldable pub take_saved : ℕ → Flex D S (Option (ℕ × Text))
  take_saved sequence = do
    c ← get
    let (found, slots) = take_response sequence c.saved_responses
    modify (λ c. record c { saved_responses = slots })
    pure found

module _ {D S : Type 0} ⦃fp : Floats D⦄ (env : Env S) where
  -- A line that is no awaited response: a response to another command is kept, anything else is a
  -- status. The result says whether the loop ends with a failure.
  unfoldable pub other_line :
      (Text → Flex D S Status) → Bool → Option Response → Text → Flex D S Bool
  other_line handle cleanup (some r) line = do
    modify (λ c. record c { saved_responses = save_response r c.saved_responses })
    pure false
  other_line handle cleanup none line = do
    status ← handle line
    pure (elim status [ success ↦ false | failure ↦ not cleanup ])

  -- What the loop does with a line: `again` is its next round.
  unfoldable pub after_line :
      (Text → Flex D S Status)
      → Flex D S (Option Text)
      → ℕ
      → Bool
      → Text
      → Option Response
      → Option Response
      → Flex D S (Option Text)
  unfolding other_line
  after_line handle again response_size cleanup line response (some answer) =
      pure (accept_response answer.code answer.body response_size)
  after_line handle again response_size cleanup line response none = do
    failed ← other_line handle cleanup response line
    elim failed [ true ↦ pure none | false ↦ again ]

  -- The loop of send_command_once, from its condition on.
  unfoldable pub await_response :
      (Text → Flex D S Status) → ℕ → ℕ → ℕ → ℕ → Bool → Flex D S (Option Text)
  unfolding may_go_on take_saved after_line awaited
  await_response handle zero sequence deadline response_size cleanup = give_up
  await_response handle (suc fuel) sequence deadline response_size cleanup = do
    go_on ← may_go_on env cleanup
    elim go_on [
      | false ↦ pure none
      | true ↦ do
        now ← call env.clock
        saved ← take_saved env sequence
        elim saved [
          | some (code, body) ↦ pure (accept_response code body response_size)
          | none ↦ if leb deadline now then pure none else (do
            r ← read_line env (suc fuel) line_buffer (deadline - now)
            elim r [
              | read_failed ↦ pure none
              | nothing ↦ pure none
              | got_line line ↦
                  let again = await_response handle fuel sequence deadline response_size cleanup in
                  let response = parse_response line in
                  after_line handle again response_size cleanup line response
                    (awaited sequence response)
            ])
        ]
    ]

  unfoldable pub transmit_frame :
      (Text → Flex D S Status) → ℕ → Text → ℕ → ℕ → ℕ → Bool → Flex D S (Option Text)
  unfolding await_response
  transmit_frame handle fuel command sequence deadline response_size cleanup = do
    let frame = frame_of sequence command
    if leb command_size (length frame) then pure none else (do
      push_trace command frame
      status ← send_all env fuel frame
      elim status [
        | failure ↦ pure none
        | success ↦ await_response handle fuel sequence deadline response_size cleanup
      ])

  unfoldable pub send_command_once :
      (Text → Flex D S Status) → ℕ → Text → ℕ → Bool → Flex D S (Option Text)
  unfolding transmit_frame frame_of
  send_command_once handle fuel command response_size cleanup = do
    modify (λ c. record c { sequence = (c.sequence + 1) % 2 ^ 32 })
    c ← get
    now ← call env.clock
    stop ← call env.stop_requested
    if stop && not cleanup
        then pure none
        else transmit_frame handle fuel command c.sequence (now + command_timeout_ms) response_size
            cleanup

  -- One command, with the flag command_in_progress around it.
  unfoldable pub send_flagged :
      (Text → Flex D S Status) → ℕ → Text → ℕ → Bool → Flex D S (Option Text)
  send_flagged handle fuel command response_size cleanup = do
    modify (λ c. record c { command_in_progress = true })
    result ← send_command_once handle fuel command response_size cleanup
    modify (λ c. record c { command_in_progress = false })
    pure result

  -- The loop of send_command over updates that came while a command was in progress.
  unfoldable pub send_deferred : (Text → Flex D S Status) → ℕ → Flex D S Status
  unfolding send_flagged
  send_deferred handle zero = give_up
  send_deferred handle (suc fuel) = do
    c ← get
    stop ← (if c.interlock_update_pending then call env.stop_requested else pure true)
    elim stop [
      | true ↦ pure success
      | false ↦ do
        modify (λ c. record c { interlock_update_pending = false })
        result ←
            send_flagged handle (suc fuel)
              (interlock_command c.pending_interlock_ready c.interlock_id) 0 false
        elim result [ none ↦ pure failure | some body ↦ send_deferred handle fuel ]
    ]

  -- send_command; `handle` is handle_status as send_command_once calls it.
  unfoldable pub send_through :
      (Text → Flex D S Status) → ℕ → Text → ℕ → Bool → Flex D S (Option Text)
  unfolding send_flagged send_deferred
  send_through handle fuel command response_size cleanup = do
    c ← get
    if c.command_in_progress then pure none else (do
      result ← send_flagged handle fuel command response_size cleanup
      elim result [
        | none ↦ pure none
        | some body ↦ if cleanup then pure (some body) else (do
          status ← send_deferred handle fuel
          pure (elim status [ success ↦ some body | failure ↦ none ]))
      ])

  -- send_command calls itself through handle_status and set_interlock; the depth bounds that. While a
  -- command is in progress set_interlock only records what to send.
  unfoldable pub send_command : ℕ → ℕ → Text → ℕ → Bool → Flex D S (Option Text)
  unfolding send_through
  send_command zero fuel command response_size cleanup = give_up
  send_command (suc depth) fuel command response_size cleanup =
      send_through
        (handle_status
          (λ nested. do result ← send_command depth fuel nested 0 false; pure (to_status result)))
        fuel command response_size cleanup

  -- As the handlers call it, with no response wanted.
  unfoldable pub send_plain : ℕ → ℕ → Text → Flex D S Status
  unfolding send_command
  send_plain depth fuel command = do
    result ← send_command depth fuel command 0 false
    pure (to_status result)
