-- ===== src/Flex/Safety/Sessions.antt =====
-- The phases of a session keep the invariants of Flex/Safety: subscription, creation of the
-- interlock, and the loop over status lines.
use antenna_guardian_pi_lite.Common.{
  ℕ, zero, suc, Bool, true, false, ◌||◌, [], Option, none, some, ◌≡◌, refl, sym, ◌∙◌, arith, leb,
}
use antenna_guardian_pi_lite.CString.{Text, codes, starts_with, is_empty, strlen, before}
use antenna_guardian_pi_lite.Config.{Config}
use antenna_guardian_pi_lite.Floats.{Floats}
use antenna_guardian_pi_lite.Flex.Buffer.{read_failed, nothing, got_line}
use antenna_guardian_pi_lite.Flex.Commands.{to_status, send_command, send_plain}
use antenna_guardian_pi_lite.Flex.Connection.{
  Env, Session, Outcome, returned, exhausted, Flex, Status, success, failure, command_size,
  interlock_id_size, response_body_size,
}
use antenna_guardian_pi_lite.Flex.Ensures.{
  Post, Ensures, bind-Ensures, pure-Ensures, give_up-Ensures, get-Ensures, modify-Ensures,
  call-Ensures, if-Ensures, if-Post, pre-Ensures, quiet-Ensures,
}
use antenna_guardian_pi_lite.Flex.Handlers.{set_interlock}
use antenna_guardian_pi_lite.Flex.Quiet.{core, read_line-Quiet}
use antenna_guardian_pi_lite.Flex.Run.{
  and_then, subscribe, join_ids, create_command, adopt_interlock, create_interlock, protect,
  initialize_session, session_loop,
}
use antenna_guardian_pi_lite.Flex.Safety.{Calm, Idle, Authorised, Settled}
use antenna_guardian_pi_lite.Flex.Safety.Between.{
  Calm-Settled, set_interlock-Settled, handle_status-Settled,
}
use antenna_guardian_pi_lite.Flex.Safety.Commands.{Permits}
use antenna_guardian_pi_lite.Flex.Safety.Sending.{send_command-Settled, send_plain-Settled}

and_then-Ensures :
    {D S : Type 0} ⦃fp : Floats D⦄ {P R : Session D S → Type 0} {a b : Flex D S Status}
    {Q : Status → Session D S → Type 0}
    → Ensures Authorised P a (λ r s. R s)
    → ((s : Session D S) → R s → Q failure s)
    → Ensures Authorised R b Q
    → Ensures Authorised P (and_then a b) Q
unfolding and_then
and_then-Ensures ea stop eb =
    bind-Ensures ea (elim [ failure ↦ pure-Ensures failure stop | success ↦ eb ])

-- The session is settled, with some interlock id.
abbrev pub SettledWithId :
    {D S : Type 0} ⦃fp : Floats D⦄ → Env S → Config → Bool → Status → Session D S → Type 0
SettledWithId env k o r s = (i : Text) × Settled env k o i r s

-- The session is between commands, with some interlock id.
abbrev pub IdleWithId : {D S : Type 0} ⦃fp : Floats D⦄ → Config → Bool → Session D S → Type 0
IdleWithId k o s = (i : Text) × Idle k o i (core s)

module _ {D S : Type 0} ⦃fp : Floats D⦄ (env : Env S) (depth fuel : ℕ) {k : Config} {o : Bool} where
  -- With no interlock there is nothing to defer.
  Idle-Calm : (s : Session D S) → Idle k o [] (core s) → Calm k o [] (core s)
  Idle-Calm s h = record {
    base = h.base;
    not_pending = ground (arith, h.base.has_id);
    idle = h.idle;
  }

  -- A command that is none of the interlock's, before there is one.
  plain-Calm :
      (command : Text)
      → starts_with (codes "interlock ready ") command ≡ false
      → starts_with (codes "interlock ") command ≡ false
      → Ensures {D = D} Authorised
          (λ s. Calm k o [] (core s))
          (send_plain env depth fuel command)
          (λ r s. Calm k o [] (core s))
  plain-Calm command n₁ n₂ = record {
    holds = λ s c.
        weaken (send_plain env depth fuel command s)
          ((send_plain-Settled env depth fuel command).holds s (c, (λ e. cc, λ e. cc)));
  }
    where
      weaken :
          (x : Outcome Status × Session D S)
          → Post Authorised (Settled env k o []) x
          → Post Authorised (λ r s. Calm k o [] (core s)) x
      weaken (returned r, s) t = Idle-Calm s t.between
      weaken (exhausted, s) t = t

  subscribe-Calm :
      Ensures {D = D} Authorised
        (λ s. Calm k o [] (core s))
        (subscribe env depth fuel)
        (λ r s. Calm k o [] (core s))
  unfolding subscribe starts_with
  subscribe-Calm =
      and_then-Ensures (plain-Calm _ refl refl) (λ s c. c)
        (and_then-Ensures (plain-Calm _ refl refl) (λ s c. c)
          (and_then-Ensures (plain-Calm _ refl refl) (λ s c. c) (plain-Calm _ refl refl)))

  adopt_interlock-Settled :
      (response : Option Text)
      → Ensures {D = D} Authorised
          (λ s. Calm k o [] (core s))
          (adopt_interlock env depth fuel response)
          (SettledWithId env k o)
  unfolding adopt_interlock
  adopt_interlock-Settled none = pure-Ensures failure (λ s c. ([], Calm-Settled env failure s c))
  adopt_interlock-Settled (some response) =
      let id = before b'|' response in
      if-Ensures (is_empty id || leb interlock_id_size (strlen id))
        (λ bad. pure-Ensures failure (λ s c. ([], Calm-Settled env failure s c)))
        (λ good.
          bind-Ensures {Q = λ u s. Calm k o id (core s)}
            (modify-Ensures _ (λ s c. record {
              base = record {
                config_is = c.base.config_is;
                observe_is = c.base.observe_is;
                id_is = refl;
                authorised = c.base.authorised;
                protects = c.base.protects;
                has_id = λ e. absurd (ground (arith, e, c.not_pending));
              };
              not_pending = c.not_pending;
              idle = c.idle;
            }))
            (λ u. record {
              holds = λ s c. with_id id (set_interlock (send_plain env depth fuel) false s) (
                  set_interlock-Settled env (send_plain env depth fuel)
                    (λ command s c m. (send_plain-Settled env depth fuel command).holds s (c, m))
                    false s c (λ e. cc));
            }))
    where
      with_id :
          (i : Text) (x : Outcome Status × Session D S)
          → Post Authorised (Settled env k o i) x
          → Post Authorised (SettledWithId env k o) x
      with_id i (returned r, s) t = (i, t)
      with_id i (exhausted, s) t = t

  create_interlock-Settled :
      (antennas : Option Text)
      → Ensures {D = D} Authorised
          (λ s. Calm k o [] (core s) × (o ≡ false))
          (create_interlock env depth fuel antennas)
          (SettledWithId env k o)
  unfolding create_interlock
  create_interlock-Settled none = pure-Ensures failure (λ s c. ([], Calm-Settled env failure s c.0))
  create_interlock-Settled (some antennas) =
      if-Ensures (leb command_size (strlen (create_command antennas)))
        (λ long. pure-Ensures failure (λ s c. ([], Calm-Settled env failure s c.0)))
        (λ fits.
          bind-Ensures
            (record {
              holds = λ s c.
                  calm
                    (send_command env depth fuel (create_command antennas) response_body_size false
                      s)
                    ((send_command-Settled env depth fuel (create_command antennas)
                        response_body_size).holds
                      s (c.0, permits s c));
            })
            (adopt_interlock-Settled))
    where
      permits :
          (s : Session D S)
          → Calm k o [] (core s) × (o ≡ false)
          → Permits (create_command antennas) (core s).0
      permits s c = (λ e. unfold create_command starts_with in cc, λ e. c.0.base.observe_is ∙ c.1)

      calm :
          (x : Outcome (Option Text) × Session D S)
          → Post Authorised (λ r. Settled env k o [] (to_status r)) x
          → Post Authorised (λ r s. Calm k o [] (core s)) x
      calm (returned r, s) t = Idle-Calm s t.between
      calm (exhausted, s) t = t

  protect-Settled :
      Ensures {D = D} Authorised
        (λ s. Calm k o [] (core s))
        (protect env depth fuel)
        (SettledWithId env k o)
  unfolding protect
  protect-Settled = get-Ensures _ (λ s c.
      if-Post _ _ s.conn.observe_only _ _ s
        (λ observing. (pure-Ensures success (λ s c. ([], Calm-Settled env success s c))).holds s c)
        (λ protecting.
          (create_interlock-Settled (join_ids true [] s.conn.config.antennas)).holds s
            (c, sym c.base.observe_is ∙ protecting)))

  pub initialize_session-Settled :
      Ensures {D = D} Authorised
        (λ s. Calm k o [] (core s))
        (initialize_session env depth fuel)
        (SettledWithId env k o)
  unfolding initialize_session
  initialize_session-Settled =
      and_then-Ensures subscribe-Calm (λ s c. ([], Calm-Settled env failure s c)) protect-Settled

  -- A line, or a timeout, in a settled session; if the flag is clear, nothing is left to send.
  pub session_loop-Idle :
      (i : Text) (rounds : ℕ)
      → Ensures {D = D} Authorised
          (Settled env k o i success)
          (session_loop env depth fuel rounds)
          (λ r s. Idle k o i (core s))
  unfolding session_loop
  session_loop-Idle i zero = give_up-Ensures (λ s t. t.between.base.authorised)
  session_loop-Idle i (suc rounds) =
      bind-Ensures {Q = λ stop s. Idle k o i (core s) × (stop ≡ false → Calm k o i (core s))}
        (call-Ensures env.stop_requested (λ s t. (
          t.between,
          λ e. record {
            base = t.between.base;
            not_pending = ground (arith, e, t.left_over refl);
            idle = t.between.idle;
          },
        )))
        (elim [
          | true ↦ pure-Ensures _ (λ s c. c.0)
          | false ↦
              pre-Ensures (λ s c. c.1 refl)
                (bind-Ensures
                  (quiet-Ensures (Calm k o i) (λ s c. c.base.authorised)
                    (read_line-Quiet env _ _ _))
                  (elim [
                    | read_failed ↦ pure-Ensures _ (λ s c. (Calm-Settled env success s c).between)
                    | nothing ↦
                        pre-Ensures (λ s c. Calm-Settled env success s c)
                          (session_loop-Idle i rounds)
                    | got_line line ↦
                        bind-Ensures {Q = Settled env k o i}
                          (record {
                            holds =
                                handle_status-Settled env (send_plain env depth fuel)
                                  (λ command s c m.
                                    (send_plain-Settled env depth fuel command).holds s (c, m))
                                  line;
                          })
                          (elim [
                            | failure ↦ pure-Ensures _ (λ s t. t.between)
                            | success ↦ session_loop-Idle i rounds
                          ])
                  ]))
        ])
