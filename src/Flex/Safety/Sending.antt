-- ===== src/Flex/Safety/Sending.antt =====
-- send_command as a whole: the command, then the updates that were deferred meanwhile.
use mathlib.Core.Path.{subst}
use antenna_guardian_pi_lite.Common.{
  ℕ, zero, suc, Bool, true, false, List, none, some, ◌≡◌, refl, sym, ap, ◌∙◌, arith,
}
use antenna_guardian_pi_lite.CString.{Text}
use antenna_guardian_pi_lite.Config.{Config}
use antenna_guardian_pi_lite.Floats.{Floats}
use antenna_guardian_pi_lite.Flex.Commands.{
  to_status, send_deferred, send_through, send_command, send_plain,
}
use antenna_guardian_pi_lite.Flex.Connection.{
  Connection, Env, Sent, Session, Flex, Status, success, failure,
}
use antenna_guardian_pi_lite.Flex.Ensures.{
  Post, Ensures, bind-Ensures, pure-Ensures, give_up-Ensures, get-Ensures, modify-Ensures,
  call-Ensures, if-Ensures, if-Post,
}
use antenna_guardian_pi_lite.Flex.Handlers.{interlock_command}
use antenna_guardian_pi_lite.Flex.Quiet.{core_of, core}
use antenna_guardian_pi_lite.Flex.Safety.{Busy, Calm, Idle, Authorised, Settled}
use antenna_guardian_pi_lite.Flex.Safety.Between.{Calm-Settled}
use antenna_guardian_pi_lite.Flex.Safety.Commands.{Permits, send_flagged-Idle}
use antenna_guardian_pi_lite.Flex.Safety.Handlers.{interlock_command-MayBeSent, handle_status-Busy}

abbrev taken : {D : Type 0} → Connection D → Connection D
taken c = record c { interlock_update_pending = false }

module _ {D : Type 0} ⦃fp : Floats D⦄ {k : Config} {o : Bool} {i : Text} where
  -- A deferred update may be sent once it is taken.
  taken-Permits :
      (c : Connection D) (t : List (Sent D))
      → Idle k o i (core_of c, t)
      → c.interlock_update_pending ≡ true
      → Idle k o i (core_of (taken c), t)
        × Permits (interlock_command c.pending_interlock_ready c.interlock_id) (core_of (taken c))
  taken-Permits c t h p = (
    record {
      base = record {
        config_is = h.base.config_is;
        observe_is = h.base.observe_is;
        id_is = h.base.id_is;
        authorised = h.base.authorised;
        protects = λ e. cc;
        has_id = λ e. cc;
      };
      deferral = λ e. cc;
      idle = h.idle;
    },
    interlock_command-MayBeSent c.pending_interlock_ready c.interlock_id (taken c)
        (λ r. h.deferral p r) (h.base.observe_is ∙ h.base.protects p),
  )

module _ {D S : Type 0} ⦃fp : Floats D⦄ (env : Env S) (handle : Text → Flex D S Status) {k : Config}
    {o : Bool} {i : Text}
    (handles : (line : Text) (s : Session D S)
      → Busy k o i (core s)
      → Post Authorised (λ r t. Busy k o i (core t)) (handle line s)) where
  -- What the condition of the loop leaves: the flag, read only if an update is pending.
  record Tested (c : Connection D) (stop : Bool) (s : Session D S) : Type 0 where
    between : Idle k o i (core s)
    same : s.conn ≡ c
    stopped :
        stop ≡ true → s.conn.interlock_update_pending ≡ true → (env.stop_requested s.world).0 ≡ true
    going : stop ≡ false → s.conn.interlock_update_pending ≡ true

  send_deferred-Settled :
      (fuel : ℕ)
      → Ensures Authorised
          (λ s. Idle k o i (core s))
          (send_deferred env handle fuel)
          (Settled env k o i)
  unfolding send_deferred
  send_deferred-Settled zero = give_up-Ensures (λ s h. h.base.authorised)
  send_deferred-Settled (suc fuel) = get-Ensures _ (λ s₀ h₀.
      (bind-Ensures {P = λ s. s ≡ s₀} {Q = Tested s₀.conn}
          (if-Ensures s₀.conn.interlock_update_pending
            (λ p. call-Ensures env.stop_requested (λ s e. record {
              between = subst (λ t. Idle k o i (core t)) (sym e) h₀;
              same = ap (λ t. t.conn) e;
              stopped = λ q r. env.stop_kept s.world q;
              going = λ q. ap (λ t. t.conn.interlock_update_pending) e ∙ p;
            }))
            (λ p. pure-Ensures true (λ s e. record {
              between = subst (λ t. Idle k o i (core t)) (sym e) h₀;
              same = ap (λ t. t.conn) e;
              stopped = λ q r.
                  absurd (ground (arith, p, sym (ap (λ t. t.conn.interlock_update_pending) e) ∙ r));
              going = λ q. cc;
            })))
          (elim [
            | true ↦
                pure-Ensures success
                  (λ s t. record { between = t.between; left_over = λ _ p. t.stopped refl p })
            | false ↦
                bind-Ensures
                  {Q = λ u s.
                    Idle k o i (core s)
                    × Permits
                        (interlock_command s₀.conn.pending_interlock_ready s₀.conn.interlock_id)
                        (core s).0}
                  (modify-Ensures _ (λ s t.
                    subst
                      (λ c.
                        Idle k o i (core_of (taken s.conn), s.trace)
                        × Permits (interlock_command c.pending_interlock_ready c.interlock_id)
                            (core_of (taken s.conn)))
                      t.same (taken-Permits s.conn s.trace t.between (t.going refl))))
                  (λ u.
                    bind-Ensures (send_flagged-Idle env handle handles (suc fuel) _ 0 false) (elim [
                      | none ↦
                          pure-Ensures failure (λ s b. record { between = b; left_over = λ e. cc })
                      | some body ↦ send_deferred-Settled fuel
                    ]))
          ])).holds
        s₀ refl)

  -- A command that may be sent, from a calm session.
  pub send_through-Settled :
      (fuel : ℕ) (command : Text) (response_size : ℕ)
      → Ensures Authorised
          (λ s. Calm k o i (core s) × Permits command (core s).0)
          (send_through env handle fuel command response_size false)
          (λ r. Settled env k o i (to_status r))
  unfolding send_through
  send_through-Settled fuel command response_size = get-Ensures _ (λ s b.
      if-Post _ _ s.conn.command_in_progress _ _ s (λ q. absurd (ground (arith, q, b.0.idle)))
        (λ q.
          (bind-Ensures (send_flagged-Idle env handle handles fuel command response_size false)
              (elim [
                | none ↦ pure-Ensures none (λ s b. record { between = b; left_over = λ e. cc })
                | some body ↦ bind-Ensures (send_deferred-Settled fuel) (elim [
                  | success ↦ pure-Ensures (some body) (λ s t. t)
                  | failure ↦ pure-Ensures none (λ s t. t)
                ])
              ])).holds
            s ((Calm-Settled env success s b.0).between, b.1)))

  -- A cleanup command, whatever is pending.
  pub send_through-cleanup :
      (fuel : ℕ) (command : Text) (response_size : ℕ)
      → Ensures Authorised
          (λ s. Idle k o i (core s) × Permits command (core s).0)
          (send_through env handle fuel command response_size true)
          (λ r s. Authorised s)
  unfolding send_through
  send_through-cleanup fuel command response_size = get-Ensures _ (λ s b.
      if-Post _ _ s.conn.command_in_progress _ _ s (λ q. absurd (ground (arith, q, b.0.idle)))
        (λ q.
          (bind-Ensures (send_flagged-Idle env handle handles fuel command response_size true)
              (elim [
                | none ↦ pure-Ensures none (λ s b. b.base.authorised)
                | some body ↦ pure-Ensures (some body) (λ s b. b.base.authorised)
              ])).holds
            s b))

-- The same of send_command, which handles status lines as send_command_once does.
module _ {D S : Type 0} ⦃fp : Floats D⦄ (env : Env S) {k : Config} {o : Bool} {i : Text} where
  pub send_command-Settled :
      (depth fuel : ℕ) (command : Text) (response_size : ℕ)
      → Ensures {D = D} Authorised
          (λ s. Calm k o i (core s) × Permits command (core s).0)
          (send_command env depth fuel command response_size false)
          (λ r. Settled env k o i (to_status r))
  unfolding send_command
  send_command-Settled zero fuel command size = give_up-Ensures (λ s b. b.0.base.authorised)
  send_command-Settled (suc depth) fuel command size =
      send_through-Settled env _ (handle_status-Busy _) fuel command size

  pub send_command-cleanup :
      (depth fuel : ℕ) (command : Text) (response_size : ℕ)
      → Ensures {D = D} Authorised
          (λ s. Idle k o i (core s) × Permits command (core s).0)
          (send_command env depth fuel command response_size true)
          (λ r s. Authorised s)
  unfolding send_command
  send_command-cleanup zero fuel command size = give_up-Ensures (λ s b. b.0.base.authorised)
  send_command-cleanup (suc depth) fuel command size =
      send_through-cleanup env _ (handle_status-Busy _) fuel command size

  pub send_plain-Settled :
      (depth fuel : ℕ) (command : Text)
      → Ensures {D = D} Authorised
          (λ s. Calm k o i (core s) × Permits command (core s).0)
          (send_plain env depth fuel command)
          (Settled env k o i)
  unfolding send_plain
  send_plain-Settled depth fuel command =
      bind-Ensures (send_command-Settled depth fuel command 0) (λ r. pure-Ensures _ (λ s t. t))
