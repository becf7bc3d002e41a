-- ===== src/Main/Whole.antt =====
-- The program as a whole: main over the sessions of src/flex.c and the wait of src/discovery.c.
use antenna_guardian_pi_lite.Common.{
  ℕ, Bool, List, [], ◌∷◌, Option, none, some, ◌≡◌, subst, ap, ◌∙◌, arith, take-of_le, All,
}
use antenna_guardian_pi_lite.CString.{Text}
use antenna_guardian_pi_lite.Config.{Config}
use antenna_guardian_pi_lite.Floats.{Floats}
use antenna_guardian_pi_lite.Discovery.{DiscoveredRadio}
use antenna_guardian_pi_lite.Discovery.Announcements.{IsAnnouncement}
use antenna_guardian_pi_lite.Discovery.Wait.{
  DiscoveryEnv, DiscoveryResult, discovery_error, discovery_stopped, discovery_matched, faulted,
  ag_discovery_wait,
}
use antenna_guardian_pi_lite.Discovery.Wait.{exhausted as wait_exhausted}
use antenna_guardian_pi_lite.Discovery.Wait.Results.{
  IsSelected, IsProper, IsHeard, ag_discovery_wait-IsClosed,
}
use antenna_guardian_pi_lite.Flex.Connection.{Env, Outcome, returned, exhausted, SessionResult}
use antenna_guardian_pi_lite.Flex.Run.{ag_flex_run_session}
use antenna_guardian_pi_lite.Main.{MainEnv, Discovery, stopped, failed, matched}
use antenna_guardian_pi_lite.Main.Loops.{session_config, start, discovery_loop}
use antenna_guardian_pi_lite.Main.Radios.{IsForGood, discovery_loop-IsForGood}

abbrev pub session_of : Outcome SessionResult → Option SessionResult
session_of (returned result) = some result
session_of exhausted = none

abbrev pub discovery_of : DiscoveryResult → Option Discovery
discovery_of discovery_error = some failed
discovery_of discovery_stopped = some stopped
discovery_of (discovery_matched r) = some (matched r)
discovery_of faulted = none
discovery_of wait_exhausted = none

-- One outside world S for all parts, and fuel for the loops of the sessions and of the wait.
module _ (D : Type 0) {S : Type 0} ⦃fp : Floats D⦄ (env : Env S) (udp : DiscoveryEnv S)
    (nanosleep : S → Bool × S) (valid_ipv4 : Text → Bool) (fuel rounds : ℕ) where
  unfoldable pub whole_env : MainEnv S
  unfolding ag_flex_run_session ag_discovery_wait
  whole_env = record {
    stop_requested = env.stop_requested;
    nanosleep = nanosleep;
    clock = env.clock;
    session = λ config observe_only log w.
        let (outcome, s) = ag_flex_run_session {D = D} env 1 fuel rounds config observe_only w in
        (session_of outcome, s.world);
    discover = λ config w.
        let (result, s) =
          ag_discovery_wait udp valid_ipv4 config rounds (record { world = w; open_sockets = 0 }) in
        (discovery_of result, s.world);
  }

  abbrev wait_result : Config → S → DiscoveryResult
  wait_result config w =
      (ag_discovery_wait udp valid_ipv4 config rounds (record { world = w; open_sockets = 0 })).0

  -- A radio that the wait returned from some state of the world.
  record IsWaitedFor (config : Config) (r : DiscoveredRadio) : Type 0 where
    waiting : S
    returned_it : wait_result config waiting ≡ discovery_matched r

  discover-IsWaitedFor :
      (config : Config) (w : S) (r : DiscoveredRadio)
      → (whole_env.discover config w).0 ≡ some (matched r)
      → IsWaitedFor config r
  unfolding whole_env
  discover-IsWaitedFor config w r e = record {
    waiting = w;
    returned_it = of_result (wait_result config w) e;
  }
    where
      of_result :
          (result : DiscoveryResult)
          → discovery_of result ≡ some (matched r)
          → result ≡ discovery_matched r
      of_result discovery_error e = cc
      of_result discovery_stopped e = cc
      of_result faulted e = cc
      of_result wait_exhausted e = cc
      of_result (discovery_matched q) e = cc

  -- The session goes to a radio that ag_discovery_wait returned: parse_packet made it of a packet that
  -- recv returned, with the packet's host and port, and it is the one that the configuration pins.
  pub record IsTargeted (config c : Config) : Type 0 where
    pub radio : DiscoveredRadio
    pub waiting : S
    pub returned_it : wait_result config waiting ≡ discovery_matched radio
    pub heard : IsHeard udp valid_ipv4 radio
    pub announced : IsAnnouncement valid_ipv4 radio
    pub selected : IsSelected config radio
    pub host_is : c.host ≡ radio.host
    pub port_is : c.port ≡ radio.port
    pub antennas_are : c.antennas ≡ config.antennas

  session_config-IsTargeted :
      (config c : Config) → IsForGood config (IsWaitedFor config) c → IsTargeted config c
  unfolding session_config IsProper
  session_config-IsTargeted config c g =
      let closed =
        ag_discovery_wait-IsClosed udp valid_ipv4 config rounds
          (record { world = g.good.waiting; open_sockets = 0 }) in
      let proper : IsProper valid_ipv4 config (discovery_matched g.radio) =
        subst (IsProper valid_ipv4 config) g.good.returned_it closed.proper in
      record {
        radio = g.radio;
        waiting = g.good.waiting;
        returned_it = g.good.returned_it;
        heard = closed.heard g.radio g.good.returned_it;
        announced = proper.0;
        selected = proper.1;
        host_is =
            ap (λ k. k.host) g.configured
            ∙ take-of_le 255 g.radio.host (omega (arith, proper.0.host_fits));
        port_is = ap (λ k. k.port) g.configured;
        antennas_are = ap (λ k. k.antennas) g.configured;
      }

  All-IsTargeted :
      (config : Config) (cs : List Config)
      → All (IsForGood config (IsWaitedFor config)) cs
      → All (IsTargeted config) cs
  All-IsTargeted config [] h = tt
  All-IsTargeted config (c ∷ cs) h =
      (session_config-IsTargeted config c h.0, All-IsTargeted config cs h.1)

  -- Whatever the network sends: every session that the discovery loop of main starts runs with the
  -- antennas of the configuration and with the host, not cut, and the port of a radio that
  -- ag_discovery_wait returned. That radio is what parse_packet makes of a packet that recv returned,
  -- inet_pton accepts its host, and it is the radio that the configuration pins.
  pub discovery_loop-IsTargeted :
      (config : Config) (observe_only once : Bool) (sleep_fuel tries : ℕ) (w : S)
      → All
          (IsTargeted config)
          (discovery_loop whole_env config observe_only once sleep_fuel tries
            (start whole_env config w)).1.sessions
  unfolding start
  discovery_loop-IsTargeted config observe_only once sleep_fuel tries w = All-IsTargeted config _ (
      discovery_loop-IsForGood whole_env config observe_only once sleep_fuel (IsWaitedFor config)
        (discover-IsWaitedFor config) tries (start whole_env config w) tt)
