-- ===== src/Flex/Nesting/Commands.antt =====
-- send_command needs a depth of 1 only.
use antenna_guardian_pi_lite.Common.{
  ℕ, zero, suc, ◌-◌, Bool, true, false, Option, none, some, ◌≡◌, refl, ap, ◌∙◌, if◌then◌else◌,
}
use antenna_guardian_pi_lite.CString.{Text}
use antenna_guardian_pi_lite.Floats.{Floats}
use antenna_guardian_pi_lite.Flex.Connection.{
  Env, Session, Outcome, returned, exhausted, Flex, continue_with, ◌>>=◌, ◌>>◌, pure, modify,
  success, failure, line_buffer,
}
use antenna_guardian_pi_lite.Flex.Buffer.{read_failed, nothing, got_line}
use antenna_guardian_pi_lite.Flex.Responses.{Response}
use antenna_guardian_pi_lite.Flex.Handlers.{Sender, handle_status}
use antenna_guardian_pi_lite.Flex.Commands.{
  other_line, after_line, await_response, transmit_frame, send_command_once, send_flagged,
  send_deferred, send_through, send_command,
}
use antenna_guardian_pi_lite.Flex.Quiet.{
  pure-Quiet, give_up-Quiet, get-Quiet, call-Quiet, read_line-Quiet, send_all-Quiet,
  may_go_on-Quiet, take_saved-Quiet,
}
use antenna_guardian_pi_lite.Flex.Nesting.{
  Agrees, bind-Agrees, Quiet-Agrees, modify-Agrees, push_trace-Agrees, if-Agrees,
  handle_status-Agrees,
}

-- Equal results from every state.
record Equals {D S A : Type 0} (m n : Flex D S A) : Type 0 where
  same : (s : Session D S) → m s ≡ n s

Equals-refl : {D S A : Type 0} (m : Flex D S A) → Equals m m
Equals-refl m = record { same = λ s. refl }

module _ {D S A B : Type 0} {f g : A → Flex D S B} where
  continue_with-same :
      (x : Outcome A × Session D S)
      → ((a : A) → Equals (f a) (g a))
      → continue_with x f ≡ continue_with x g
  unfolding continue_with
  continue_with-same (returned a, s) h = (h a).same s
  continue_with-same (exhausted, s) h = refl

  bind-Equals :
      {m n : Flex D S A} → Equals m n → ((a : A) → Equals (f a) (g a)) → Equals (m >>= f) (n >>= g)
  unfolding ◌>>=◌
  bind-Equals {m} {n} e h = record {
    same = λ s. continue_with-same (m s) h ∙ ap (λ x. continue_with x g) (e.same s);
  }

if-Equals :
    {D S A : Type 0} (b : Bool) {m m' n n' : Flex D S A}
    → Equals m m'
    → Equals n n'
    → Equals (if b then m else n) (if b then m' else n')
if-Equals true h k = h
if-Equals false h k = k

-- Behind the assignment to the flag a command is in progress.
flagged-Equals :
    {D S A B : Type 0} {m n : Flex D S A} (f : A → Flex D S B)
    → Agrees m n
    → Equals
        (modify (λ c. record c { command_in_progress = true }) >> (m >>= f))
        (modify (λ c. record c { command_in_progress = true }) >> (n >>= f))
unfolding ◌>>=◌ continue_with modify
flagged-Equals f h = record {
  same = λ s.
      ap (λ x. continue_with x f)
        (h.same (record s { conn = record s.conn { command_in_progress = true } }) refl);
}

module _ {D S : Type 0} ⦃fp : Floats D⦄ (env : Env S) (a b : Sender D S) where
  other_line-Agrees :
      (cleanup : Bool) (r : Option Response) (line : Text)
      → Agrees
          (other_line env (handle_status a) cleanup r line)
          (other_line env (handle_status b) cleanup r line)
  unfolding other_line
  other_line-Agrees cleanup (some r) line =
      bind-Agrees (modify-Agrees _ (λ c. refl)) (λ u. Quiet-Agrees (pure-Quiet false))
  other_line-Agrees cleanup none line =
      bind-Agrees (handle_status-Agrees a b line) (λ status. Quiet-Agrees (pure-Quiet _))

  after_line-Agrees :
      (m n : Flex D S (Option Text)) (size : ℕ) (cleanup : Bool) (line : Text)
      (response answer : Option Response)
      → Agrees m n
      → Agrees
          (after_line env (handle_status a) m size cleanup line response answer)
          (after_line env (handle_status b) n size cleanup line response answer)
  unfolding after_line
  after_line-Agrees m n size cleanup line response (some answer) h = Quiet-Agrees (pure-Quiet _)
  after_line-Agrees m n size cleanup line response none h =
      bind-Agrees (other_line-Agrees cleanup response line)
        (elim [ true ↦ Quiet-Agrees (pure-Quiet none) | false ↦ h ])

  await_response-Agrees :
      (fuel sequence deadline size : ℕ) (cleanup : Bool)
      → Agrees
          (await_response env (handle_status a) fuel sequence deadline size cleanup)
          (await_response env (handle_status b) fuel sequence deadline size cleanup)
  unfolding await_response
  await_response-Agrees zero sequence deadline size cleanup = Quiet-Agrees (give_up-Quiet _)
  await_response-Agrees (suc fuel) sequence deadline size cleanup =
      bind-Agrees (Quiet-Agrees (may_go_on-Quiet env cleanup)) (elim [
        | false ↦ Quiet-Agrees (pure-Quiet none)
        | true ↦ bind-Agrees (Quiet-Agrees (call-Quiet _)) (λ now.
            bind-Agrees (Quiet-Agrees (take_saved-Quiet env sequence)) (elim [
              | some (code, body) ↦ Quiet-Agrees (pure-Quiet _)
              | none ↦ if-Agrees _ (Quiet-Agrees (pure-Quiet none)) (
                  bind-Agrees
                    (Quiet-Agrees (read_line-Quiet env (suc fuel) line_buffer (deadline - now)))
                    (elim [
                      | read_failed ↦ Quiet-Agrees (pure-Quiet none)
                      | nothing ↦ Quiet-Agrees (pure-Quiet none)
                      | got_line line ↦
                          after_line-Agrees _ _ size cleanup line _ _
                            (await_response-Agrees fuel sequence deadline size cleanup)
                    ]))
            ]))
      ])

  transmit_frame-Agrees :
      (fuel : ℕ) (command : Text) (sequence deadline size : ℕ) (cleanup : Bool)
      → Agrees
          (transmit_frame env (handle_status a) fuel command sequence deadline size cleanup)
          (transmit_frame env (handle_status b) fuel command sequence deadline size cleanup)
  unfolding transmit_frame
  transmit_frame-Agrees fuel command sequence deadline size cleanup =
      if-Agrees _ (Quiet-Agrees (pure-Quiet none)) (
        bind-Agrees (push_trace-Agrees command _) (λ u.
          bind-Agrees (Quiet-Agrees (send_all-Quiet env fuel _)) (elim [
            | failure ↦ Quiet-Agrees (pure-Quiet none)
            | success ↦ await_response-Agrees fuel sequence deadline size cleanup
          ])))

  send_command_once-Agrees :
      (fuel : ℕ) (command : Text) (size : ℕ) (cleanup : Bool)
      → Agrees
          (send_command_once env (handle_status a) fuel command size cleanup)
          (send_command_once env (handle_status b) fuel command size cleanup)
  unfolding send_command_once
  send_command_once-Agrees fuel command size cleanup =
      bind-Agrees (modify-Agrees _ (λ c. refl)) (λ u. bind-Agrees (Quiet-Agrees get-Quiet) (λ c.
        bind-Agrees (Quiet-Agrees (call-Quiet _)) (λ now.
          bind-Agrees (Quiet-Agrees (call-Quiet _)) (λ stop.
            if-Agrees _ (Quiet-Agrees (pure-Quiet none))
              (transmit_frame-Agrees fuel command _ _ size cleanup)))))

  send_flagged-Equals :
      (fuel : ℕ) (command : Text) (size : ℕ) (cleanup : Bool)
      → Equals
          (send_flagged env (handle_status a) fuel command size cleanup)
          (send_flagged env (handle_status b) fuel command size cleanup)
  unfolding send_flagged
  send_flagged-Equals fuel command size cleanup =
      flagged-Equals
        (λ result. modify (λ c. record c { command_in_progress = false }) >> pure result)
        (send_command_once-Agrees fuel command size cleanup)

  send_deferred-Equals :
      (fuel : ℕ)
      → Equals (send_deferred env (handle_status a) fuel) (send_deferred env (handle_status b) fuel)
  unfolding send_deferred
  send_deferred-Equals zero = Equals-refl _
  send_deferred-Equals (suc fuel) = bind-Equals (Equals-refl _) (λ c.
      bind-Equals (Equals-refl _) (elim [
        | true ↦ Equals-refl _
        | false ↦ bind-Equals (Equals-refl _) (λ u.
            bind-Equals (send_flagged-Equals (suc fuel) _ 0 false)
              (elim [ none ↦ Equals-refl _ | some body ↦ send_deferred-Equals fuel ]))
      ]))

  -- Whatever the handlers would send while a command is in progress, send_command does the same.
  send_through-Equals :
      (fuel : ℕ) (command : Text) (size : ℕ) (cleanup : Bool)
      → Equals
          (send_through env (handle_status a) fuel command size cleanup)
          (send_through env (handle_status b) fuel command size cleanup)
  unfolding send_through
  send_through-Equals fuel command size cleanup = bind-Equals (Equals-refl _) (λ c.
      if-Equals c.command_in_progress (Equals-refl _) (
        bind-Equals (send_flagged-Equals fuel command size cleanup) (elim [
          | none ↦ Equals-refl _
          | some body ↦
              if-Equals cleanup (Equals-refl _)
                (bind-Equals (send_deferred-Equals fuel) (λ status. Equals-refl _))
        ])))

-- send_command never nests deeper than once: while a command is in progress the handlers only record
-- what they would send, so a depth of 1 gives the result of every greater depth.
pub send_command-depth :
    {D S : Type 0} ⦃fp : Floats D⦄ (env : Env S) (depth fuel : ℕ) (command : Text) (size : ℕ)
    (cleanup : Bool) (s : Session D S)
    → send_command env (suc depth) fuel command size cleanup s
      ≡ send_command env 1 fuel command size cleanup s
unfolding send_command
send_command-depth env depth fuel command size cleanup s =
    (send_through-Equals env _ _ fuel command size cleanup).same s
