-- ===== src/Flex/Protocol/Creating.antt =====
-- The protocol over initialize_session of src/flex.c.
use antenna_guardian_pi_lite.Common.{
  ℕ, Bool, true, false, [], Option, none, some, ◌≡◌, sym, ◌∙◌, ◌⊎◌, inl, inr, leb,
}
use antenna_guardian_pi_lite.CString.{Text, strlen}
use antenna_guardian_pi_lite.Floats.{Floats}
use antenna_guardian_pi_lite.Flex.Connection.{
  Env, Session, success, failure, command_size, response_body_size,
}
use antenna_guardian_pi_lite.Flex.Ensures.{
  Ensures, bind-Ensures, pure-Ensures, get-Ensures, if-Ensures, if-Post,
}
use antenna_guardian_pi_lite.Flex.Quiet.{core}
use antenna_guardian_pi_lite.Flex.Run.{
  adopt_interlock, create_interlock, create_command, join_ids, protect, initialize_session,
}
use antenna_guardian_pi_lite.Flex.Waiting.{SentOr}
use antenna_guardian_pi_lite.Flex.Protocol.{
  subscribing, created, Says, creates, subscriptions, Talk, Spoken,
}
use antenna_guardian_pi_lite.Flex.Protocol.Commanding.{send_command-said}
use antenna_guardian_pi_lite.Flex.Protocol.Sessions.{
  Halts, Goes, OrHalts, unnamed, unnamed-Halts, unnamed-Goes, and_then-OrHalts, subscribe-OrHalts,
  adopt_interlock-OrHalts,
}

creates_it :
    {o : Bool}
    → o ≡ false
    → (antennas : Text) → Says o (subscribing []) (create_command antennas) created
unfolding create_command
creates_it protects antennas = creates protects

module _ {D S : Type 0} ⦃fp : Floats D⦄ (env : Env S) (depth fuel : ℕ) {o : Bool} where
  create_interlock-OrHalts :
      (antennas : Option Text)
      → o ≡ false
      → Ensures {D = D}
          (Spoken o)
          (λ s. Talk o [] false (subscribing []) (core s))
          (create_interlock env depth fuel antennas)
          (OrHalts o (Goes o))
  unfolding create_interlock adopt_interlock
  create_interlock-OrHalts none protects = pure-Ensures failure (unnamed-Halts (subscribing []))
  create_interlock-OrHalts (some antennas) protects =
      if-Ensures (leb command_size (strlen (create_command antennas)))
        (λ long. pure-Ensures failure (unnamed-Halts (subscribing [])))
        (λ fits.
          bind-Ensures
            (send_command-said env depth fuel (creates_it protects antennas) (unnamed o created)
              response_body_size)
            adopting)
    where
      either :
          (s : Session D S)
          → Talk o [] false (subscribing []) (core s) ⊎ Talk o [] false created (core s)
          → Halts o s
      either s (inl t) = unnamed-Halts (subscribing []) s t
      either s (inr t) = unnamed-Halts created s t

      adopting :
          (response : Option Text)
          → Ensures {D = D}
              (Spoken o)
              (SentOr (Talk o [] false (subscribing [])) (Talk o [] false created) response)
              (adopt_interlock env depth fuel response)
              (OrHalts o (Goes o))
      adopting none = pure-Ensures failure either
      adopting (some response) = adopt_interlock-OrHalts env depth fuel (some response) protects

  protect-OrHalts :
      Ensures {D = D}
        (Spoken o)
        (λ s. Talk o [] false (subscribing []) (core s))
        (protect env depth fuel)
        (OrHalts o (Goes o))
  unfolding protect
  protect-OrHalts = get-Ensures _ (λ s t.
      if-Post _ _ s.conn.observe_only _ _ s
        (λ observing.
          (pure-Ensures {P = λ s. Talk o [] false (subscribing []) (core s)} success
              (unnamed-Goes (subscribing []))).holds
            s t)
        (λ protecting.
          (create_interlock-OrHalts (join_ids true [] s.conn.config.antennas)
              (sym t.observe_is ∙ protecting)).holds
            s t))

  pub initialize_session-OrHalts :
      Ensures {D = D}
        (Spoken o)
        (λ s. Talk o [] false (subscribing subscriptions) (core s))
        (initialize_session env depth fuel)
        (OrHalts o (Goes o))
  unfolding initialize_session
  initialize_session-OrHalts = and_then-OrHalts (subscribe-OrHalts env depth fuel) protect-OrHalts
