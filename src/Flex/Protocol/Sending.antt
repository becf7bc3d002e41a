-- ===== src/Flex/Protocol/Sending.antt =====
-- send_command speaks the protocol: the command is the next step of the conversation, and the updates
-- that were deferred meanwhile are steps behind it.
use antenna_guardian_pi_lite.Common.{
  ℕ, zero, suc, Bool, true, false, ◌||◌, Option, none, some, ◌≡◌, refl, sym, ◌∙◌, ap, subst, ◌⊎◌,
  inl, inr, arith,
}
use antenna_guardian_pi_lite.CString.{Text, is_empty}
use antenna_guardian_pi_lite.Floats.{Floats}
use antenna_guardian_pi_lite.Flex.Commands.{send_command_once, send_flagged, send_deferred}
use antenna_guardian_pi_lite.Flex.Connection.{Env, Session, exec, Status, success, failure}
use antenna_guardian_pi_lite.Flex.Ensures.{
  Post, Ensures, bind-Ensures, pure-Ensures, give_up-Ensures, get-Ensures, modify-Ensures,
  call-Ensures, if-Ensures, if-Post,
}
use antenna_guardian_pi_lite.Flex.Handlers.{Sender, interlock_command, set_interlock, handle_status}
use antenna_guardian_pi_lite.Flex.Quiet.{core}
use antenna_guardian_pi_lite.Flex.Safety.Handlers.{updated, rest-updated}
use antenna_guardian_pi_lite.Flex.Waiting.{SentOr, send_command_once-SentOr}
use antenna_guardian_pi_lite.Flex.Protocol.{Phase, Says, says, Talk, Spoken}
use antenna_guardian_pi_lite.Flex.Protocol.Handling.{handle_status-Kept}

-- The interlock may be updated in this phase.
abbrev pub Open : Bool → Text → Phase → Type 0
Open o i p = (ready : Bool) → is_empty i ≡ false → Says o p (interlock_command ready i) p

-- A command that failed may have been sent or not.
abbrev pub SaidOr : {D S : Type 0} → Bool → Text → Phase → Phase → Status → Session D S → Type 0
SaidOr o i p q failure s = Talk o i false p (core s) ⊎ Talk o i false q (core s)
SaidOr o i p q success s = Talk o i false q (core s)

module _ {D S : Type 0} ⦃fp : Floats D⦄ {o : Bool} {i : Text} {p : Phase} where
  pub Talk-Spoken : {b : Bool} (s : Session D S) → Talk o i b p (core s) → Spoken o s
  Talk-Spoken s t = (p, t.speaks)

  pub updated-Talk :
      {b : Bool} (payload : Text) (s : Session D S)
      → Talk o i b p (core s)
      → Talk o i b p (core (record s { conn = updated payload s.conn }))
  updated-Talk payload s t =
      let same = rest-updated payload s.conn in
      record {
        observe_is = ap (λ r. r.2) same ∙ t.observe_is;
        id_is = ap (λ r. r.1) same ∙ t.id_is;
        in_progress_is = ap (λ r. r.3) same ∙ t.in_progress_is;
        speaks = t.speaks;
        has_id = λ e. t.has_id (sym (ap (λ r. r.4) same) ∙ e);
      }

  -- Within a command the interlock is only marked for an update.
  set_interlock-within :
      (send : Sender D S) (ready : Bool) (s : Session D S)
      → Talk o i true p (core s)
      → Post (Spoken o) (λ r t. Talk o i true p (core t)) (set_interlock send ready s)
  unfolding set_interlock exec
  set_interlock-within send ready s t =
      if-Post _ _ (s.conn.observe_only || is_empty s.conn.interlock_id) _ _ s (λ off. t)
        (λ on.
          if-Post _ _ s.conn.command_in_progress _ _ s
            (λ busy. record {
              observe_is = t.observe_is;
              id_is = t.id_is;
              in_progress_is = t.in_progress_is;
              speaks = t.speaks;
              has_id = λ e. ground (arith, on, t.id_is);
            })
            (λ free. absurd (ground (arith, free, t.in_progress_is))))

  flagged-Talk :
      {b : Bool} (c : Bool) (s : Session D S)
      → Talk o i b p (core s)
      → Talk o i c p (core (record s { conn = record s.conn { command_in_progress = c } }))
  flagged-Talk c s t = record {
    observe_is = t.observe_is;
    id_is = t.id_is;
    in_progress_is = refl;
    speaks = t.speaks;
    has_id = t.has_id;
  }

module _ {D S : Type 0} ⦃fp : Floats D⦄ (env : Env S) (send : Sender D S) {o : Bool} {i : Text}
    {p q : Phase} {command : Text} (next : Says o p command q) where
  send_command_once-said :
      (fuel size : ℕ) (cleanup : Bool)
      → Ensures
          (Spoken o)
          (λ s. Talk o i true p (core s))
          (send_command_once env (handle_status send) fuel command size cleanup)
          (SentOr (Talk o i true p) (Talk o i true q))
  send_command_once-said =
      send_command_once-SentOr env (handle_status send) (Talk o i true q) Talk-Spoken
        (handle_status-Kept send (Spoken o) (Talk o i true q) updated-Talk
          (set_interlock-within send))
        (Talk o i true p) Talk-Spoken command
        (λ frame s t. record {
          observe_is = t.observe_is;
          id_is = t.id_is;
          in_progress_is = t.in_progress_is;
          speaks = says next t.speaks;
          has_id = t.has_id;
        })

  pub send_flagged-said :
      (fuel size : ℕ) (cleanup : Bool)
      → Ensures
          (Spoken o)
          (λ s. Talk o i false p (core s))
          (send_flagged env (handle_status send) fuel command size cleanup)
          (SentOr (Talk o i false p) (Talk o i false q))
  unfolding send_flagged
  send_flagged-said fuel size cleanup =
      bind-Ensures {Q = λ u s. Talk o i true p (core s)} (modify-Ensures _ (flagged-Talk true))
        (λ u. bind-Ensures (send_command_once-said fuel size cleanup) (λ result.
          bind-Ensures {Q = λ u s. SentOr (Talk o i false p) (Talk o i false q) result s}
            (modify-Ensures _ (free result)) (λ u. pure-Ensures result (λ s t. t))))
    where
      free :
          (result : Option Text) (s : Session D S)
          → SentOr (Talk o i true p) (Talk o i true q) result s
          → SentOr
              (Talk o i false p)
              (Talk o i false q)
              result
              (record s { conn = record s.conn { command_in_progress = false } })
      free none s (inl t) = inl (flagged-Talk false s t)
      free none s (inr t) = inr (flagged-Talk false s t)
      free (some body) s t = flagged-Talk false s t

module _ {D S : Type 0} ⦃fp : Floats D⦄ (env : Env S) (send : Sender D S) {o : Bool} {i : Text}
    {q : Phase} (open_now : Open o i q) where
  pub send_deferred-said :
      (fuel : ℕ)
      → Ensures
          (Spoken o)
          (λ s. Talk o i false q (core s))
          (send_deferred env (handle_status send) fuel)
          (λ r s. Talk o i false q (core s))
  unfolding send_deferred
  send_deferred-said zero = give_up-Ensures Talk-Spoken
  send_deferred-said (suc fuel) = get-Ensures _ (λ s₀ t₀.
      (bind-Ensures
          {Q = λ stop s.
            Talk o i false q (core s) × (stop ≡ false → s₀.conn.interlock_update_pending ≡ true)}
          (if-Ensures s₀.conn.interlock_update_pending
            (λ pending. call-Ensures env.stop_requested (λ s t. (t, λ e. pending)))
            (λ none_left. pure-Ensures true (λ s t. (t, λ e. cc))))
          (elim [
            | true ↦ pure-Ensures success (λ s t. t.0)
            | false ↦ record {
              holds = λ s t.
                  (bind-Ensures {P = λ s. Talk o i false q (core s)}
                      {Q = λ u s. Talk o i false q (core s)}
                      (modify-Ensures _ (λ s t. record {
                        observe_is = t.observe_is;
                        id_is = t.id_is;
                        in_progress_is = t.in_progress_is;
                        speaks = t.speaks;
                        has_id = λ e. cc;
                      }))
                      (λ u.
                        bind-Ensures
                          (send_flagged-said env send
                            (subst
                              (λ id.
                                Says o q (interlock_command s₀.conn.pending_interlock_ready id) q)
                              (sym t₀.id_is)
                              (open_now s₀.conn.pending_interlock_ready (t₀.has_id (t.1 refl))))
                            (suc fuel) 0 false)
                          (elim [
                            | none ↦ pure-Ensures failure either
                            | some body ↦ send_deferred-said fuel
                          ]))).holds
                    s t.0;
            }
          ])).holds
        s₀ t₀)
    where
      either :
          (s : Session D S)
          → Talk o i false q (core s) ⊎ Talk o i false q (core s)
          → Talk o i false q (core s)
      either s (inl t) = t
      either s (inr t) = t
