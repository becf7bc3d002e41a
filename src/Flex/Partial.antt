-- ===== src/Flex/Partial.antt =====
-- A line that arrives in pieces, while send_command_once of src/flex.c waits for a response.
use antenna_guardian_pi_lite.Common.{
  ℕ, suc, ◌-◌, Bool, true, false, [], ◌∷◌, ◌++◌, none, List, ◌≡◌, refl, arith, leb, ◌==◌,
  if◌then◌else◌, length,
}
use antenna_guardian_pi_lite.CString.{Text, strchr}
use antenna_guardian_pi_lite.Floats.{Floats}
use antenna_guardian_pi_lite.Flex.Connection.{
  Env, SavedResponse, Session, Outcome, returned, Flex, ◌>>=◌, continue_with, exec, Status,
  line_buffer, poll_ready, received,
}
use antenna_guardian_pi_lite.Flex.Buffer.{nothing, extract_line, receive, read_line}
use antenna_guardian_pi_lite.Flex.Responses.{take_response}
use antenna_guardian_pi_lite.Flex.Commands.{may_go_on, take_saved, await_response}

strchr-append_none :
    (b : ℕ) (s t : Text) → strchr b s ≡ none → strchr b t ≡ none → strchr b (s ++ t) ≡ none
unfolding strchr
strchr-append_none b [] t h k = k
strchr-append_none b (c ∷ s) t h k = ground (arith, strchr-append_none b s t)

module _ {D S : Type 0} (env : Env S) where
  receive-partial :
      (s : Session D S) (bytes : Text) {w : S}
      → strchr b'\n' s.conn.receive_buffer ≡ none
      → (length s.conn.receive_buffer == line_buffer) ≡ false
      → env.recv (line_buffer - length s.conn.receive_buffer) s.world ≡ (received bytes, w)
      → strchr b'\n' bytes ≡ none
      → (receive env line_buffer s).0 ≡ returned nothing
  unfolding receive extract_line exec
  receive-partial s bytes h room r k =
      rw (room, r, strchr-append_none b'\n' s.conn.receive_buffer bytes h k) refl

  read_line-partial :
      (fuel timeout_ms : ℕ) (s : Session D S) (bytes : Text) {w w' : S}
      → strchr b'\n' s.conn.receive_buffer ≡ none
      → (length s.conn.receive_buffer == line_buffer) ≡ false
      → env.poll timeout_ms s.world ≡ (poll_ready false true, w)
      → env.recv (line_buffer - length s.conn.receive_buffer) w ≡ (received bytes, w')
      → strchr b'\n' bytes ≡ none
      → (read_line env (suc fuel) line_buffer timeout_ms s).0 ≡ returned nothing
  unfolding read_line extract_line exec
  read_line-partial fuel timeout_ms s bytes {w} h room p r k =
      rw (h, room, p) (receive-partial (record s { world = w }) bytes h room r k)

-- What a computation returns from a state.
record Gives {D S A : Type 0} (m : Flex D S A) (s : Session D S) (r : Outcome A) : Type 0 where
  gives : (m s).0 ≡ r

module _ {D S A B : Type 0} (m : Flex D S A) (f : A → Flex D S B) {s : Session D S} where
  bind-step :
      {a : A} {t : Session D S} {r : Outcome B}
      → m s ≡ (returned a, t)
      → Gives (f a) t r
      → Gives (m >>= f) s r
  unfolding ◌>>=◌ continue_with
  bind-step e h = record { gives = rw e h.gives }

  bind-Gives :
      {a : A} {r : Outcome B}
      → Gives m s (returned a)
      → ((t : Session D S) → Gives (f a) t r)
      → Gives (m >>= f) s r
  unfolding ◌>>=◌ continue_with
  bind-Gives h k = record { gives = rw h.gives (k (m s).1).gives }

if-Gives :
    {D S A : Type 0} {b : Bool} (m n : Flex D S A) {s : Session D S} {r : Outcome A}
    → b ≡ false
    → Gives n s r
    → Gives (if b then m else n) s r
if-Gives m n e h = rw e h

module _ {D S : Type 0} ⦃fp : Floats D⦄ (env : Env S) where
  -- When the stop flag is clear, the deadline has not come, the saved responses hold no answer, and
  -- recv delivers bytes without a newline to a buffer without one, the wait for the response fails at
  -- once, whatever time is left.
  pub await_response-partial :
      (handle : Text → Flex D S Status) (fuel sequence deadline size : ℕ) (s : Session D S)
      (now : ℕ) (slots : List SavedResponse) (bytes : Text) {w1 w2 w3 w4 : S}
      → env.stop_requested s.world ≡ (false, w1)
      → env.clock w1 ≡ (now, w2)
      → leb deadline now ≡ false
      → take_response sequence s.conn.saved_responses ≡ (none, slots)
      → strchr b'\n' s.conn.receive_buffer ≡ none
      → (length s.conn.receive_buffer == line_buffer) ≡ false
      → env.poll (deadline - now) w2 ≡ (poll_ready false true, w3)
      → env.recv (line_buffer - length s.conn.receive_buffer) w3 ≡ (received bytes, w4)
      → strchr b'\n' bytes ≡ none
      → (await_response env handle (suc (suc fuel)) sequence deadline size false s).0
        ≡ returned none
  unfolding await_response
  await_response-partial handle fuel sequence deadline size s now slots bytes {w1} {w2} stop c f
        saved h room p r k =
      let s1 : Session D S = record s { world = w1 } in
      let s2 : Session D S = record s { world = w2 } in
      let s3 : Session D S = record {
        conn = record s.conn { saved_responses = slots };
        world = w2;
        trace = s.trace;
      } in
      let step : Gives (await_response env handle (suc (suc fuel)) sequence deadline size false) s
          (returned none) =
        bind-step _ _ {a = true} {t = s1} (unfold may_go_on exec in rw stop refl) (
          bind-step _ _ {a = now} {t = s2} (unfold exec in rw c refl) (
            bind-step _ _ {a = none} {t = s3} (unfold take_saved exec in rw saved refl) (
              if-Gives _ _ f (
                bind-Gives _ _ {a = nothing}
                  (record {
                    gives = read_line-partial env (suc fuel) (deadline - now) s3 bytes h room p r k;
                  })
                  (λ t. unfold exec in record { gives = refl }))))) in
      step.gives
