-- ===== src/Flex/Safety/Commands.antt =====
-- send_command keeps the invariants of Flex/Safety, whatever the radio sends meanwhile.
use antenna_guardian_pi_lite.Common.{ℕ, Bool, true, false, Option, none, some, inl, inr, ◌≡◌, refl}
use antenna_guardian_pi_lite.CString.{Text, codes, starts_with}
use antenna_guardian_pi_lite.Config.{Config}
use antenna_guardian_pi_lite.Floats.{Floats}
use antenna_guardian_pi_lite.Flex.Commands.{send_command_once, send_flagged}
use antenna_guardian_pi_lite.Flex.Connection.{
  Env, Session, Outcome, returned, exhausted, Flex, Status,
}
use antenna_guardian_pi_lite.Flex.Ensures.{
  Post, Ensures, bind-Ensures, pure-Ensures, modify-Ensures,
}
use antenna_guardian_pi_lite.Flex.Quiet.{Core, core}
use antenna_guardian_pi_lite.Flex.Waiting.{SentOr, send_command_once-SentOr}
use antenna_guardian_pi_lite.Flex.Safety.{core_allows, Busy, Idle, Authorised}

-- MayBeSent, of a core.
abbrev pub Permits : {D : Type 0} ⦃fp : Floats D⦄ → Text → Core D → Type 0
Permits command c =
    (starts_with (codes "interlock ready ") command ≡ true → core_allows c ≡ true)
    × (starts_with (codes "interlock ") command ≡ true → c.observe_only ≡ false)

module _ {D S : Type 0} ⦃fp : Floats D⦄ (env : Env S) (handle : Text → Flex D S Status) {k : Config}
    {o : Bool} {i : Text}
    (handles : (line : Text) (s : Session D S)
      → Busy k o i (core s)
      → Post Authorised (λ r t. Busy k o i (core t)) (handle line s)) where
  sent-Busy :
      (command : Text) (x : Outcome (Option Text) × Session D S)
      → Post Authorised (SentOr (λ x. Busy k o i x × Permits command x.0) (Busy k o i)) x
      → Post Authorised (λ r s. Busy k o i (core s)) x
  sent-Busy command (returned (some body), s) h = h
  sent-Busy command (returned none, s) (inl h) = h.0
  sent-Busy command (returned none, s) (inr h) = h
  sent-Busy command (exhausted, s) h = h

  send_command_once-Busy :
      (fuel : ℕ) (command : Text) (response_size : ℕ) (cleanup : Bool)
      → Ensures Authorised
          (λ s. Busy k o i (core s) × Permits command (core s).0)
          (send_command_once env handle fuel command response_size cleanup)
          (λ r s. Busy k o i (core s))
  send_command_once-Busy fuel command response_size cleanup = record {
    holds = λ s b.
        sent-Busy command (send_command_once env handle fuel command response_size cleanup s) (
          (send_command_once-SentOr env handle (Busy k o i) (λ s b. b.base.authorised) handles
              (λ x. Busy k o i x × Permits command x.0) (λ s b. b.0.base.authorised) command
              (λ frame s b. record {
                base = record {
                  config_is = b.0.base.config_is;
                  observe_is = b.0.base.observe_is;
                  id_is = b.0.base.id_is;
                  authorised = (b.1, b.0.base.authorised);
                  protects = b.0.base.protects;
                  has_id = b.0.base.has_id;
                };
                deferral = b.0.deferral;
                in_progress = b.0.in_progress;
              })
              fuel response_size cleanup).holds
            s b);
  }

  pub send_flagged-Idle :
      (fuel : ℕ) (command : Text) (response_size : ℕ) (cleanup : Bool)
      → Ensures Authorised
          (λ s. Idle k o i (core s) × Permits command (core s).0)
          (send_flagged env handle fuel command response_size cleanup)
          (λ r s. Idle k o i (core s))
  unfolding send_flagged
  send_flagged-Idle fuel command response_size cleanup =
      bind-Ensures {Q = λ u s. Busy k o i (core s) × Permits command (core s).0}
        (modify-Ensures _ (λ s b. (busy s b.0, b.1)))
        (λ u. bind-Ensures (send_command_once-Busy fuel command response_size cleanup) (λ result.
          bind-Ensures {Q = λ u s. Idle k o i (core s)} (modify-Ensures _ idle)
            (λ u. pure-Ensures result (λ s b. b))))
    where
      busy :
          (s : Session D S)
          → Idle k o i (core s)
          → Busy k o i (core (record s { conn = record s.conn { command_in_progress = true } }))
      busy s b = record {
        base = record {
          config_is = b.base.config_is;
          observe_is = b.base.observe_is;
          id_is = b.base.id_is;
          authorised = b.base.authorised;
          protects = b.base.protects;
          has_id = b.base.has_id;
        };
        deferral = b.deferral;
        in_progress = refl;
      }

      idle :
          (s : Session D S)
          → Busy k o i (core s)
          → Idle k o i (core (record s { conn = record s.conn { command_in_progress = false } }))
      idle s b = record {
        base = record {
          config_is = b.base.config_is;
          observe_is = b.base.observe_is;
          id_is = b.base.id_is;
          authorised = b.base.authorised;
          protects = b.base.protects;
          has_id = b.base.has_id;
        };
        deferral = b.deferral;
        idle = refl;
      }
