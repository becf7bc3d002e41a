-- ===== src/Flex/Waiting.antt =====
-- send_command_once of src/flex.c, for any invariant: what it needs is that the frame may be added to
-- the trace and that the handler of status lines keeps the invariant.
use antenna_guardian_pi_lite.Common.{
  ℕ, zero, suc, Bool, true, false, not, ◌&&◌, List, ◌∷◌, Option, none, some, refl, ◌⊎◌, inl, inr,
  leb, length,
}
use antenna_guardian_pi_lite.CString.{Text}
use antenna_guardian_pi_lite.Floats.{Floats}
use antenna_guardian_pi_lite.Flex.Buffer.{read_failed, nothing, got_line}
use antenna_guardian_pi_lite.Flex.Commands.{
  frame_of, other_line, after_line, await_response, transmit_frame, send_command_once,
}
use antenna_guardian_pi_lite.Flex.Connection.{
  Env, Sent, Session, Outcome, returned, exhausted, Flex, pure, Status, success, failure,
  command_size,
}
use antenna_guardian_pi_lite.Flex.Ensures.{
  Post, Ensures, bind-Ensures, pure-Ensures, give_up-Ensures, push_trace-Ensures, if-Ensures,
  quiet-Ensures,
}
use antenna_guardian_pi_lite.Flex.Quiet.{
  Core, core, Quiet, get-Quiet, call-Quiet, modify-Quiet, read_line-Quiet, send_all-Quiet,
  may_go_on-Quiet, take_saved-Quiet,
}
use antenna_guardian_pi_lite.Flex.Responses.{Response}

-- Without a response the command may have been sent or not; with one it has been.
abbrev pub SentOr :
    {D S : Type 0} → (J K : Core D × List (Sent D) → Type 0) → Option Text → Session D S → Type 0
SentOr J K none s = J (core s) ⊎ K (core s)
SentOr J K (some body) s = K (core s)

module _ {D S : Type 0} (J K : Core D × List (Sent D) → Type 0) where
  late : (r : Option Text) (s : Session D S) → K (core s) → SentOr J K r s
  late none s h = inr h
  late (some body) s h = h

module _ {D S : Type 0} ⦃fp : Floats D⦄ (env : Env S) (handle : Text → Flex D S Status)
    {I : Session D S → Type 0} (K : Core D × List (Sent D) → Type 0)
    (stop : (s : Session D S) → K (core s) → I s)
    (handles : (line : Text) (s : Session D S)
      → K (core s)
      → Post I (λ r t. K (core t)) (handle line s)) where
  abbrev Keeping : {A : Type 0} → Flex D S A → Type 0
  Keeping m = Ensures I (λ s. K (core s)) m (λ a s. K (core s))

  step : {A : Type 0} {m : Flex D S A} → Quiet m → Keeping m
  step q = quiet-Ensures K stop q

  stay : {A : Type 0} (a : A) → Keeping (pure a)
  stay a = pure-Ensures a (λ s b. b)

  other_line-Keeping :
      (cleanup : Bool) (r : Option Response) (line : Text)
      → Keeping (other_line env handle cleanup r line)
  unfolding other_line
  other_line-Keeping cleanup (some r) line =
      bind-Ensures (step (modify-Quiet _ (λ c. refl))) (λ u. stay _)
  other_line-Keeping cleanup none line =
      bind-Ensures {Q = λ status s. K (core s)} (record { holds = handles line }) (λ status. stay _)

  after_line-Keeping :
      (again : Flex D S (Option Text)) (response_size : ℕ) (cleanup : Bool) (line : Text)
      (response answer : Option Response)
      → Keeping again
      → Keeping (after_line env handle again response_size cleanup line response answer)
  unfolding after_line
  after_line-Keeping again size cleanup line response (some answer) e = stay _
  after_line-Keeping again size cleanup line response none e =
      bind-Ensures (other_line-Keeping cleanup response line)
        (elim [ true ↦ stay none | false ↦ e ])

  await_response-Keeping :
      (fuel sequence deadline response_size : ℕ) (cleanup : Bool)
      → Keeping (await_response env handle fuel sequence deadline response_size cleanup)
  unfolding await_response
  await_response-Keeping zero sequence deadline response_size cleanup = give_up-Ensures stop
  await_response-Keeping (suc fuel) sequence deadline response_size cleanup =
      let again = await_response-Keeping fuel sequence deadline response_size cleanup in
      bind-Ensures (step (may_go_on-Quiet env cleanup)) (elim [
        | false ↦ stay none
        | true ↦ bind-Ensures (step (call-Quiet env.clock)) (λ now.
            bind-Ensures (step (take_saved-Quiet env sequence)) (elim [
              | some (code, body) ↦ stay _
              | none ↦
                  if-Ensures (leb deadline now) (λ late. stay none)
                    (λ early. bind-Ensures (step (read_line-Quiet env _ _ _)) (elim [
                      | read_failed ↦ stay none
                      | nothing ↦ stay none
                      | got_line line ↦ after_line-Keeping _ _ _ _ _ _ again
                    ]))
            ]))
      ])

  module _ (J : Core D × List (Sent D) → Type 0) (stop_first : (s : Session D S) → J (core s) → I s)
      (command : Text)
      (pushes : (frame : Text) (s : Session D S)
        → J (core s)
        → K ((core s).0, record { command = command; frame = frame; at = s.conn } ∷ s.trace)) where
    transmit_frame-SentOr :
        (fuel sequence deadline response_size : ℕ) (cleanup : Bool)
        → Ensures I
            (λ s. J (core s))
            (transmit_frame env handle fuel command sequence deadline response_size cleanup)
            (SentOr J K)
    unfolding transmit_frame
    transmit_frame-SentOr fuel sequence deadline response_size cleanup =
        if-Ensures (leb command_size (length (frame_of sequence command)))
          (λ long. pure-Ensures none (λ s b. inl b))
          (λ fits.
            bind-Ensures {Q = λ u s. K (core s)} (push_trace-Ensures _ _ (λ s b. pushes _ s b))
              (λ u. bind-Ensures (step (send_all-Quiet env fuel _)) (elim [
                | failure ↦ pure-Ensures none (λ s b. inr b)
                | success ↦
                    post_late (await_response-Keeping fuel sequence deadline response_size cleanup)
              ])))
      where
        late_Post :
            (x : Outcome (Option Text) × Session D S)
            → Post I (λ a s. K (core s)) x
            → Post I (SentOr J K) x
        late_Post (returned r, s) h = late J K r s h
        late_Post (exhausted, s) h = h

        post_late :
            {m : Flex D S (Option Text)} → Keeping m → Ensures I (λ s. K (core s)) m (SentOr J K)
        post_late {m} e = record { holds = λ s b. late_Post (m s) (e.holds s b) }

    pub send_command_once-SentOr :
        (fuel response_size : ℕ) (cleanup : Bool)
        → Ensures I
            (λ s. J (core s))
            (send_command_once env handle fuel command response_size cleanup)
            (SentOr J K)
    unfolding send_command_once
    send_command_once-SentOr fuel response_size cleanup =
        bind-Ensures (quiet-Ensures J stop_first (modify-Quiet _ (λ c. refl))) (λ u.
          bind-Ensures (quiet-Ensures J stop_first get-Quiet) (λ c.
            bind-Ensures (quiet-Ensures J stop_first (call-Quiet env.clock)) (λ now.
              bind-Ensures (quiet-Ensures J stop_first (call-Quiet env.stop_requested)) (λ stopping.
                if-Ensures (stopping && not cleanup) (λ stopped. pure-Ensures none (λ s b. inl b))
                  (λ going. transmit_frame-SentOr fuel _ _ response_size cleanup)))))
