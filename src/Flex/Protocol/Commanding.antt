-- ===== src/Flex/Protocol/Commanding.antt =====
-- send_command as a whole speaks the protocol, and so do the handlers between commands.
use antenna_guardian_pi_lite.Common.{
  ℕ, zero, suc, Bool, true, false, ◌||◌, none, some, ◌≡◌, sym, subst, ◌⊎◌, inl, inr, arith,
}
use antenna_guardian_pi_lite.CString.{Text, is_empty}
use antenna_guardian_pi_lite.Floats.{Floats}
use antenna_guardian_pi_lite.Flex.Commands.{send_through, send_command, send_plain}
use antenna_guardian_pi_lite.Flex.Connection.{
  Env, Session, Outcome, returned, exhausted, exec, Status, success, failure,
}
use antenna_guardian_pi_lite.Flex.Ensures.{
  Post, Ensures, bind-Ensures, pure-Ensures, give_up-Ensures, get-Ensures, if-Post,
}
use antenna_guardian_pi_lite.Flex.Handlers.{Sender, set_interlock, handle_status, interlock_command}
use antenna_guardian_pi_lite.Flex.Quiet.{core}
use antenna_guardian_pi_lite.Flex.Waiting.{SentOr}
use antenna_guardian_pi_lite.Flex.Protocol.{Phase, Says, Talk, Spoken}
use antenna_guardian_pi_lite.Flex.Protocol.Handling.{handle_status-Kept}
use antenna_guardian_pi_lite.Flex.Protocol.Sending.{
  Open, SaidOr, updated-Talk, Talk-Spoken, send_flagged-said, send_deferred-said,
}

module _ {D S : Type 0} (o : Bool) (i : Text) (p : Phase) where
  merged :
      (x : Outcome Status × Session D S)
      → Post (Spoken o) (SaidOr o i p p) x
      → Post (Spoken o) (λ r t. Talk o i false p (core t)) x
  merged (returned failure, s) (inl t) = t
  merged (returned failure, s) (inr t) = t
  merged (returned success, s) t = t
  merged (exhausted, s) t = t

module _ {D S : Type 0} ⦃fp : Floats D⦄ (env : Env S) {o : Bool} {i : Text} where
  module _ (send : Sender D S) {p q : Phase} {command : Text} (next : Says o p command q) where
    send_through-said :
        (open_then : Open o i q) (fuel size : ℕ)
        → Ensures
            (Spoken o)
            (λ s. Talk o i false p (core s))
            (send_through env (handle_status send) fuel command size false)
            (SentOr (Talk o i false p) (Talk o i false q))
    unfolding send_through
    send_through-said open_then fuel size = get-Ensures _ (λ s t.
        if-Post _ _ s.conn.command_in_progress _ _ s
          (λ busy. absurd (ground (arith, busy, t.in_progress_is)))
          (λ free.
            (bind-Ensures (send_flagged-said env send next fuel size false) (elim [
              | none ↦ pure-Ensures none (λ s t. t)
              | some body ↦ bind-Ensures (send_deferred-said env send open_then fuel) (elim [
                | success ↦ pure-Ensures (some body) (λ s t. t)
                | failure ↦ pure-Ensures none (λ s t. inr t)
              ])
            ])).holds
              s t))

    -- A cleanup command: nothing that was deferred is sent.
    send_through-cleaned :
        (fuel size : ℕ)
        → Ensures
            (Spoken o)
            (λ s. Talk o i false p (core s))
            (send_through env (handle_status send) fuel command size true)
            (λ r s. Spoken o s)
    unfolding send_through
    send_through-cleaned fuel size = get-Ensures _ (λ s t.
        if-Post _ _ s.conn.command_in_progress _ _ s
          (λ busy. absurd (ground (arith, busy, t.in_progress_is)))
          (λ free.
            (bind-Ensures (send_flagged-said env send next fuel size true) (elim [
              | none ↦ pure-Ensures none either
              | some body ↦ pure-Ensures (some body) Talk-Spoken
            ])).holds
              s t))
      where
        either :
            (s : Session D S) → Talk o i false p (core s) ⊎ Talk o i false q (core s) → Spoken o s
        either s (inl t) = Talk-Spoken s t
        either s (inr t) = Talk-Spoken s t

  module _ (depth fuel : ℕ) {p q : Phase} {command : Text} (next : Says o p command q) where
    pub send_command-said :
        (open_then : Open o i q) (size : ℕ)
        → Ensures {D = D}
            (Spoken o)
            (λ s. Talk o i false p (core s))
            (send_command env depth fuel command size false)
            (SentOr (Talk o i false p) (Talk o i false q))
    unfolding send_command
    send_command-said open_then size = at_depth depth
      where
        at_depth :
            (depth : ℕ)
            → Ensures {D = D}
                (Spoken o)
                (λ s. Talk o i false p (core s))
                (send_command env depth fuel command size false)
                (SentOr (Talk o i false p) (Talk o i false q))
        at_depth zero = give_up-Ensures Talk-Spoken
        at_depth (suc depth) = send_through-said _ next open_then fuel size

    pub send_command-cleaned :
        (size : ℕ)
        → Ensures {D = D}
            (Spoken o)
            (λ s. Talk o i false p (core s))
            (send_command env depth fuel command size true)
            (λ r s. Spoken o s)
    unfolding send_command
    send_command-cleaned size = at_depth depth
      where
        at_depth :
            (depth : ℕ)
            → Ensures {D = D}
                (Spoken o)
                (λ s. Talk o i false p (core s))
                (send_command env depth fuel command size true)
                (λ r s. Spoken o s)
        at_depth zero = give_up-Ensures Talk-Spoken
        at_depth (suc depth) = send_through-cleaned _ next fuel size

    pub send_plain-said :
        (open_then : Open o i q)
        → Ensures {D = D}
            (Spoken o)
            (λ s. Talk o i false p (core s))
            (send_plain env depth fuel command)
            (SaidOr o i p q)
    unfolding send_plain
    send_plain-said open_then = bind-Ensures (send_command-said open_then 0) (elim [
      | none ↦ pure-Ensures failure (λ s t. t)
      | some body ↦ pure-Ensures success (λ s t. t)
    ])

  -- set_interlock sends the one step that `next` names, if it sends anything.
  pub set_interlock-said :
      (depth fuel : ℕ) {p q : Phase} (open_then : Open o i q) (ready : Bool)
      (next : Says o p (interlock_command ready i) q) (s : Session D S)
      → is_empty i ≡ false
      → o ≡ false
      → Talk o i false p (core s)
      → Post (Spoken o) (SaidOr o i p q) (set_interlock (send_plain env depth fuel) ready s)
  unfolding set_interlock exec
  set_interlock-said depth fuel {p} {q} open_then ready next s named protects t =
      if-Post _ _ (s.conn.observe_only || is_empty s.conn.interlock_id) _ _ s
        (λ off. absurd (ground (arith, off, t.observe_is, t.id_is)))
        (λ on.
          if-Post _ _ s.conn.command_in_progress _ _ s
            (λ busy. absurd (ground (arith, busy, t.in_progress_is)))
            (λ free.
              (send_plain-said depth fuel
                  (subst (λ id. Says o p (interlock_command ready id) q) (sym t.id_is) next)
                  open_then).holds
                s t))

  module _ (depth fuel : ℕ) {p : Phase} (open_now : Open o i p) where
    set_interlock-between :
        (ready : Bool) (s : Session D S)
        → Talk o i false p (core s)
        → Post
            (Spoken o)
            (λ r t. Talk o i false p (core t))
            (set_interlock (send_plain env depth fuel) ready s)
    unfolding set_interlock exec
    set_interlock-between ready s t =
        if-Post _ _ (s.conn.observe_only || is_empty s.conn.interlock_id) _ _ s (λ off. t)
          (λ on.
            if-Post _ _ s.conn.command_in_progress _ _ s
              (λ busy. absurd (ground (arith, busy, t.in_progress_is)))
              (λ free.
                merged o i p
                  (send_plain env depth fuel (interlock_command ready s.conn.interlock_id) s)
                  ((send_plain-said depth fuel
                      (subst (λ id. Says o p (interlock_command ready id) p) (sym t.id_is)
                        (open_now ready (ground (arith, on, t.id_is))))
                      open_now).holds
                    s t)))

    pub handle_status-between :
        (line : Text) (s : Session D S)
        → Talk o i false p (core s)
        → Post
            (Spoken o)
            (λ r t. Talk o i false p (core t))
            (handle_status (send_plain env depth fuel) line s)
    handle_status-between =
        handle_status-Kept (send_plain env depth fuel) (Spoken o) (Talk o i false p) updated-Talk
          set_interlock-between
