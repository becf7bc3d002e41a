-- ===== src/Flex/Safety/Whole.antt =====
-- A whole session sends only what is authorised.
use antenna_guardian_pi_lite.Common.{
  ℕ, Bool, true, false, ◌||◌, [], Option, none, some, ◌≡◌, refl, arith, All,
}
use antenna_guardian_pi_lite.CString.{Text, starts_with, is_empty}
use antenna_guardian_pi_lite.Config.{Config}
use antenna_guardian_pi_lite.Floats.{Floats}
use antenna_guardian_pi_lite.Flex.Connection.{
  Env, Session, Outcome, returned, exhausted, Flex, ◌>>=◌, pure, modify, success, failure,
  SessionResult,
}
use antenna_guardian_pi_lite.Flex.Commands.{send_command}
use antenna_guardian_pi_lite.Flex.Ensures.{
  Post, Ensures, bind-Ensures, pure-Ensures, get-Ensures, modify-Ensures, call-Ensures, if-Post,
}
use antenna_guardian_pi_lite.Flex.Quiet.{core}
use antenna_guardian_pi_lite.Flex.Run.{
  remove_command, remove_interlock, session_loop, connected, cleanup, after_connect, new_connection,
  ag_flex_run_session,
}
use antenna_guardian_pi_lite.Flex.Safety.{IsAuthorised, Calm, Idle, Authorised}
use antenna_guardian_pi_lite.Flex.Safety.Sending.{send_command-cleanup}
use antenna_guardian_pi_lite.Flex.Safety.Sessions.{
  IdleWithId, initialize_session-Settled, session_loop-Idle,
}

module _ {D S : Type 0} ⦃fp : Floats D⦄ (env : Env S) (depth fuel : ℕ) {k : Config} {o : Bool} where
  connected-Idle :
      (rounds : ℕ)
      → Ensures {D = D} Authorised
          (λ s. Calm k o [] (core s))
          (connected env depth fuel rounds)
          (λ r s. IdleWithId k o s)
  unfolding connected
  connected-Idle rounds = bind-Ensures (initialize_session-Settled env depth fuel) (elim [
    | success ↦ record {
      holds = λ s t.
          with_id t.0 (session_loop env depth fuel rounds s)
            ((session_loop-Idle env depth fuel t.0 rounds).holds s t.1);
    }
    | failure ↦
        bind-Ensures {Q = λ stop s. IdleWithId k o s}
          (call-Ensures env.stop_requested (λ s t. (t.0, t.1.between)))
          (λ stop. pure-Ensures _ (λ s t. t))
  ])
    where
      with_id :
          (i : Text) (x : Outcome SessionResult × Session D S)
          → Post Authorised (λ r s. Idle k o i (core s)) x
          → Post Authorised (λ r s. IdleWithId k o s) x
      with_id i (returned r, s) t = (i, t)
      with_id i (exhausted, s) t = t

  remove_interlock-Authorised :
      Ensures {D = D} Authorised
        (λ s. IdleWithId k o s)
        (remove_interlock env depth fuel)
        (λ u s. Authorised s)
  unfolding remove_interlock
  remove_interlock-Authorised = get-Ensures _ (λ s t.
      if-Post _ _ (s.conn.observe_only || is_empty s.conn.interlock_id) _ _ s
        (λ off. (pure-Ensures tt (λ s b. b)).holds s t.1.base.authorised)
        (λ on. removing s t.0 t.1 (ground (arith, on)) s.conn.socket_fd))
    where
      removing :
          (s : Session D S) (i : Text)
          → Idle k o i (core s)
          → s.conn.observe_only ≡ false
          → (fd : Option ℕ)
          → Post Authorised
              (λ u s. Authorised s)
              (let m : Flex D S (Unit {0}) = elim fd [
                | none ↦ pure tt
                | some fd ↦ do
                  removed ← send_command env depth fuel (remove_command s.conn.interlock_id) 0 true
                  modify (λ c. record c { interlock_id = [] })
              ] in
                m s)
      removing s i h protecting none = (pure-Ensures tt (λ s b. b)).holds s h.base.authorised
      removing s i h protecting (some fd) =
          (bind-Ensures (send_command-cleanup env depth fuel _ 0)
              (λ r. modify-Ensures _ (λ s b. b))).holds
            s (h, ((λ e. unfold remove_command starts_with in cc), λ e. protecting))

  after_connect-Authorised :
      (rounds : ℕ) (fd : Option ℕ)
      → Ensures {D = D} Authorised
          (λ s. Calm k o [] (core s))
          (after_connect env depth fuel rounds fd)
          (λ r s. Authorised s)
  unfolding after_connect cleanup
  after_connect-Authorised rounds none =
      bind-Ensures {Q = λ stop s. Authorised s}
        (call-Ensures env.stop_requested (λ s c. c.base.authorised))
        (λ stop. pure-Ensures _ (λ s b. b))
  after_connect-Authorised rounds (some fd) =
      bind-Ensures {Q = λ u s. Calm k o [] (core s)} (modify-Ensures _ (λ s c. c)) (λ u.
        bind-Ensures (connected-Idle rounds) (λ result.
          bind-Ensures remove_interlock-Authorised (λ u.
            bind-Ensures {Q = λ u s. Authorised s} (call-Ensures _ (λ s b. b))
              (λ u. pure-Ensures result (λ s b. b)))))

-- Whatever the environment does and however far the session gets: every `interlock ready` that it
-- sends is sent while the policy permits the frequency and the antenna that the connection then
-- knows, and no interlock command is sent in observe mode.
pub ag_flex_run_session-Authorised :
    (D : Type 0) {S : Type 0} ⦃fp : Floats D⦄ (env : Env S) (depth fuel rounds : ℕ)
    (config : Config) (observe_only : Bool) (world : S)
    → All IsAuthorised
        (ag_flex_run_session {D = D} env depth fuel rounds config observe_only world).1.trace
unfolding ag_flex_run_session
ag_flex_run_session-Authorised D {S} env depth fuel rounds config observe_only world = ended _ (
    (bind-Ensures {Q = λ fd s. Calm config observe_only [] (core s)}
        (call-Ensures (env.connect config) (λ s c. c))
        (after_connect-Authorised env depth fuel rounds)).holds
      (record { conn = new_connection config observe_only; world = world; trace = [] }) fresh)
  where
    ended :
        (x : Outcome SessionResult × Session D S)
        → Post Authorised (λ r s. Authorised s) x
        → Authorised x.1
    ended (returned r, s) h = h
    ended (exhausted, s) h = h

    fresh : Calm config observe_only [] (
        core {S = S}
          (record { conn = new_connection {D = D} config observe_only; world = world; trace = [] }))
    fresh =
        unfold new_connection in
        record {
          base = record {
            config_is = refl;
            observe_is = refl;
            id_is = refl;
            authorised = tt;
            protects = λ e. cc;
            has_id = λ e. cc;
          };
          not_pending = refl;
          idle = refl;
        }
