-- ===== src/Flex/Protocol/Whole.antt =====
-- The protocol over a whole session: ag_flex_run_session of src/flex.c.
use antenna_guardian_pi_lite.Common.{
  ℕ, zero, suc, Bool, true, false, ◌||◌, [], Option, none, some, ◌≡◌, refl, sym, subst, arith,
}
use antenna_guardian_pi_lite.CString.{Text, is_empty}
use antenna_guardian_pi_lite.Config.{Config}
use antenna_guardian_pi_lite.Floats.{Floats}
use antenna_guardian_pi_lite.Flex.Buffer.{read_failed, nothing, got_line}
use antenna_guardian_pi_lite.Flex.Commands.{send_command}
use antenna_guardian_pi_lite.Flex.Connection.{
  Env, Session, Outcome, returned, exhausted, Flex, ◌>>=◌, pure, modify, success, failure,
  SessionResult,
}
use antenna_guardian_pi_lite.Flex.Ensures.{
  Post, Ensures, bind-Ensures, pure-Ensures, give_up-Ensures, get-Ensures, modify-Ensures,
  call-Ensures, quiet-Ensures, if-Post,
}
use antenna_guardian_pi_lite.Flex.Quiet.{core, read_line-Quiet}
use antenna_guardian_pi_lite.Flex.Run.{
  remove_command, remove_interlock, session_loop, connected, cleanup, after_connect, new_connection,
  ag_flex_run_session,
}
use antenna_guardian_pi_lite.Flex.Protocol.{
  Phase, subscribing, removed, Says, starts, subscriptions, Talk, Spoken,
}
use antenna_guardian_pi_lite.Flex.Protocol.Sending.{Open, Talk-Spoken}
use antenna_guardian_pi_lite.Flex.Protocol.Commanding.{send_command-cleaned, handle_status-between}
use antenna_guardian_pi_lite.Flex.Protocol.Sessions.{Halts}
use antenna_guardian_pi_lite.Flex.Protocol.Creating.{initialize_session-OrHalts}

module _ {D S : Type 0} ⦃fp : Floats D⦄ (env : Env S) (depth fuel : ℕ) {o : Bool} where
  module _ {id : Text} {phase : Phase} (open_now : Open o id phase) where
    session_loop-said :
        (rounds : ℕ)
        → Ensures {D = D}
            (Spoken o)
            (λ s. Talk o id false phase (core s))
            (session_loop env depth fuel rounds)
            (λ r s. Talk o id false phase (core s))
    unfolding session_loop
    session_loop-said zero = give_up-Ensures Talk-Spoken
    session_loop-said (suc rounds) =
        bind-Ensures {Q = λ stop s. Talk o id false phase (core s)}
          (call-Ensures env.stop_requested (λ s t. t))
          (elim [
            | true ↦ pure-Ensures _ (λ s t. t)
            | false ↦
                bind-Ensures
                  (quiet-Ensures (Talk o id false phase) Talk-Spoken (read_line-Quiet env _ _ _))
                  (elim [
                    | read_failed ↦ pure-Ensures _ (λ s t. t)
                    | nothing ↦ session_loop-said rounds
                    | got_line line ↦
                        bind-Ensures {Q = λ r s. Talk o id false phase (core s)}
                          (record { holds = handle_status-between env depth fuel open_now line })
                          (elim [
                            | failure ↦ pure-Ensures _ (λ s t. t)
                            | success ↦ session_loop-said rounds
                          ])
                  ])
          ])

  connected-Halts :
      (rounds : ℕ)
      → Ensures {D = D}
          (Spoken o)
          (λ s. Talk o [] false (subscribing subscriptions) (core s))
          (connected env depth fuel rounds)
          (λ r s. Halts o s)
  unfolding connected
  connected-Halts rounds = bind-Ensures (initialize_session-OrHalts env depth fuel) (elim [
    | success ↦ record {
      holds = λ s g.
          halting g.halts.id g.halts.phase g.halts.may_remove (session_loop env depth fuel rounds s)
            ((session_loop-said g.open_now rounds).holds s g.halts.talk);
    }
    | failure ↦
        bind-Ensures {Q = λ stop s. Halts o s}
          (call-Ensures env.stop_requested (λ s h. record {
            id = h.id;
            phase = h.phase;
            talk = h.talk;
            may_remove = h.may_remove;
          }))
          (λ stop. pure-Ensures _ (λ s h. h))
  ])
    where
      halting :
          (id : Text) (phase : Phase)
          → (is_empty id ≡ false → Says o phase (remove_command id) (removed id))
          → (x : Outcome SessionResult × Session D S)
          → Post (Spoken o) (λ r s. Talk o id false phase (core s)) x
          → Post (Spoken o) (λ r s. Halts o s) x
      halting id phase may_remove (returned r, s) t = record {
        id = id;
        phase = phase;
        talk = t;
        may_remove = may_remove;
      }
      halting id phase may_remove (exhausted, s) t = t

  remove_interlock-Spoken :
      Ensures {D = D} (Spoken o) (Halts o) (remove_interlock env depth fuel) (λ u s. Spoken o s)
  unfolding remove_interlock
  remove_interlock-Spoken = get-Ensures _ (λ s h.
      if-Post _ _ (s.conn.observe_only || is_empty s.conn.interlock_id) _ _ s
        (λ off.
          (pure-Ensures {P = Halts o} tt {Q = λ u s. Spoken o s}
              (λ s h. Talk-Spoken s h.talk)).holds
            s h)
        (λ on. removing s h (ground (arith, on, h.talk.id_is)) s.conn.socket_fd))
    where
      removing :
          (s : Session D S) (h : Halts o s)
          → is_empty h.id ≡ false
          → (fd : Option ℕ)
          → Post
              (Spoken o)
              (λ u s. Spoken o s)
              (let m : Flex D S (Unit {0}) = elim fd [
                | none ↦ pure tt
                | some fd ↦ do
                  done ← send_command env depth fuel (remove_command s.conn.interlock_id) 0 true
                  modify (λ c. record c { interlock_id = [] })
              ] in
                m s)
      removing s h named none =
          (pure-Ensures {P = Halts o} tt {Q = λ u s. Spoken o s}
              (λ s h. Talk-Spoken s h.talk)).holds
            s h
      removing s h named (some fd) =
          (bind-Ensures
              (send_command-cleaned env depth fuel
                (subst (λ id. Says o h.phase (remove_command id) (removed h.id)) (sym h.talk.id_is)
                  (h.may_remove named))
                0)
              (λ r. modify-Ensures _ (λ s b. b))).holds
            s h.talk

  after_connect-Spoken :
      (rounds : ℕ) (fd : Option ℕ)
      → Ensures {D = D}
          (Spoken o)
          (λ s. Talk o [] false (subscribing subscriptions) (core s))
          (after_connect env depth fuel rounds fd)
          (λ r s. Spoken o s)
  unfolding after_connect cleanup
  after_connect-Spoken rounds none =
      bind-Ensures {Q = λ stop s. Spoken o s} (call-Ensures env.stop_requested Talk-Spoken)
        (λ stop. pure-Ensures _ (λ s b. b))
  after_connect-Spoken rounds (some fd) =
      bind-Ensures {Q = λ u s. Talk o [] false (subscribing subscriptions) (core s)}
        (modify-Ensures _ (λ s t. record {
          observe_is = t.observe_is;
          id_is = t.id_is;
          in_progress_is = t.in_progress_is;
          speaks = t.speaks;
          has_id = t.has_id;
        }))
        (λ u. bind-Ensures (connected-Halts rounds) (λ result.
          bind-Ensures remove_interlock-Spoken (λ u.
            bind-Ensures {Q = λ u s. Spoken o s} (call-Ensures _ (λ s b. b))
              (λ u. pure-Ensures result (λ s b. b)))))

-- Whatever the environment does and however far the session gets: the commands that it hands to
-- send_all are a conversation of the protocol. First come the four subscriptions, in their order; then,
-- in protect mode alone, `interlock create`; the first command that names the interlock is its
-- `not_ready` or its removal; updates follow, all for that interlock, and nothing follows the removal.
pub ag_flex_run_session-Spoken :
    (D : Type 0) {S : Type 0} ⦃fp : Floats D⦄ (env : Env S) (depth fuel rounds : ℕ)
    (config : Config) (observe_only : Bool) (world : S)
    → Spoken observe_only
        (ag_flex_run_session {D = D} env depth fuel rounds config observe_only world).1
unfolding ag_flex_run_session
ag_flex_run_session-Spoken D {S} env depth fuel rounds config observe_only world = ended _ (
    (bind-Ensures {Q = λ fd s. Talk observe_only [] false (subscribing subscriptions) (core s)}
        (call-Ensures (env.connect config) (λ s t. t))
        (after_connect-Spoken env depth fuel rounds)).holds
      (record { conn = new_connection config observe_only; world = world; trace = [] }) fresh)
  where
    ended :
        (x : Outcome SessionResult × Session D S)
        → Post (Spoken observe_only) (λ r s. Spoken observe_only s) x
        → Spoken observe_only x.1
    ended (returned r, s) h = h
    ended (exhausted, s) h = h

    fresh : Talk observe_only [] false (subscribing subscriptions) (
        core {S = S}
          (record { conn = new_connection {D = D} config observe_only; world = world; trace = [] }))
    fresh =
        unfold new_connection in
        record {
          observe_is = refl;
          id_is = refl;
          in_progress_is = refl;
          speaks = starts;
          has_id = λ e. cc;
        }
