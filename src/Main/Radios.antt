-- ===== src/Main/Radios.antt =====
-- The discovery loop of main: with which radios it starts sessions.
use antenna_guardian_pi_lite.Common.{
  ℕ, zero, suc, Bool, true, false, ◌||◌, Option, none, some, ◌≡◌, refl, if◌then◌else◌, All,
}
use antenna_guardian_pi_lite.Config.{Config}
use antenna_guardian_pi_lite.Discovery.{DiscoveredRadio}
use antenna_guardian_pi_lite.Flex.Connection.{SessionResult}
use antenna_guardian_pi_lite.Main.{
  MainEnv, State, Exit, exit_code, Discovery, stopped, failed, matched,
}
use antenna_guardian_pi_lite.Main.Loops.{
  is_stopped, is_unavailable, stop_now, run_session, session_config, after_session, rediscover,
  after_discovery, discovery_loop,
}

-- A session with a good radio, in its own configuration.
pub record IsForGood (config : Config) (IsGood : DiscoveredRadio → Type 0) (c : Config)
    : Type 0 where
  pub radio : DiscoveredRadio
  pub good : IsGood radio
  pub configured : c ≡ session_config config radio

module _ {W : Type 0} (env : MainEnv W) (config : Config) (observe_only once : Bool) (fuel : ℕ)
    (IsGood : DiscoveredRadio → Type 0)
    (discover-IsGood : (w : W) (r : DiscoveredRadio)
      → (env.discover config w).0 ≡ some (matched r)
      → IsGood r) where
  abbrev AllGood : State W → Type 0
  AllGood s = All (IsForGood config IsGood) s.sessions

  -- The state at the end, in a record so that the exit is not looked at.
  record Leaves (end : Exit × State W) : Type 0 where
    good : AllGood end.1

  if-Leaves : (b : Bool) {x y : Exit × State W} → Leaves x → Leaves y → Leaves (if b then x else y)
  if-Leaves true h k = h
  if-Leaves false h k = k

  stop-Leaves :
      (b : Bool) {x y : Exit × State W}
      → Leaves x
      → Leaves y
      → Leaves (elim b [ true ↦ x | false ↦ y ])
  stop-Leaves true h k = h
  stop-Leaves false h k = k

  module _ (again : State W → Exit × State W)
      (again-Leaves : (s : State W) → AllGood s → Leaves (again s)) where
    after_session-Leaves :
        (ran : Option SessionResult × State W)
        → AllGood ran.1
        → Leaves (
            after_session env config observe_only once fuel
              (rediscover env config observe_only once fuel again)
              ran)
    unfolding after_session stop_now rediscover
    after_session-Leaves (none, s) h = record { good = h }
    after_session-Leaves (some result, s) h =
        let (stop, w) = env.stop_requested s.world in
        let t : State W = record s { world = w } in
        let zero_end : Leaves (exit_code 0, t) = record { good = h } in
        let one_end : Leaves (exit_code 1, t) = record { good = h } in
        if-Leaves (stop || is_stopped result) zero_end (
          if-Leaves once one_end (
            again-Leaves
              (record t {
                log_connection_attempt = (if is_unavailable result then false else true);
              })
              h))

    after_discovery-Leaves :
        (found : Option Discovery × State W)
        → ((r : DiscoveredRadio) → found.0 ≡ some (matched r) → IsGood r)
        → AllGood found.1
        → Leaves (after_discovery env config observe_only once fuel again found)
    unfolding after_discovery stop_now
    after_discovery-Leaves (none, s) g h = record { good = h }
    after_discovery-Leaves (some stopped, s) g h = record { good = h }
    after_discovery-Leaves (some failed, s) g h = record { good = h }
    after_discovery-Leaves (some (matched r), s) g h =
        let t : State W = record s { world = (env.stop_requested s.world).1 } in
        let radio : IsForGood config IsGood (session_config config r) = record {
          radio = r;
          good = g r refl;
          configured = refl;
        } in
        stop-Leaves (env.stop_requested s.world).0 (record { good = h })
          (after_session-Leaves (run_session env (session_config config r) observe_only t)
            (unfold run_session in (radio, h)))

  discovery_loop-Leaves :
      (rounds : ℕ) (s : State W)
      → AllGood s
      → Leaves (discovery_loop env config observe_only once fuel rounds s)
  unfolding discovery_loop stop_now
  discovery_loop-Leaves zero s h = record { good = h }
  discovery_loop-Leaves (suc rounds) s h =
      let (stop, w) = env.stop_requested s.world in
      let (result, v) = env.discover config w in
      stop-Leaves stop (record { good = h })
        (after_discovery-Leaves (discovery_loop env config observe_only once fuel rounds)
          (discovery_loop-Leaves rounds) (result, record s { world = v })
          (λ r e. discover-IsGood w r e) h)

  -- Every session of the discovery loop runs with the configuration of main, in which the host and
  -- the port are those of a radio that the wait returned, so that is good in the sense of its law.
  pub discovery_loop-IsForGood :
      (rounds : ℕ) (s : State W)
      → All (IsForGood config IsGood) s.sessions
      → All
          (IsForGood config IsGood)
          (discovery_loop env config observe_only once fuel rounds s).1.sessions
  discovery_loop-IsForGood rounds s h = (discovery_loop-Leaves rounds s h).good
