-- ===== src/Main/Loops.antt =====
-- The loops of main in src/main.c over sessions and announcements, and main around them.
use antenna_guardian_pi_lite.Common.{
  ℕ, zero, suc, ◌+◌, ◌*◌, Bool, true, false, ◌||◌, List, [], ◌∷◌, Option, none, some, leb,
  if◌then◌else◌,
}
use antenna_guardian_pi_lite.CString.{Text, bounded}
use antenna_guardian_pi_lite.Config.{Config, max_host}
use antenna_guardian_pi_lite.Config.Checks.{Loaded, failed, loaded}
use antenna_guardian_pi_lite.Config.Radio.{is_discovery}
use antenna_guardian_pi_lite.Discovery.{DiscoveredRadio}
use antenna_guardian_pi_lite.Flex.Connection.{SessionResult, session_stopped, session_unavailable}
use antenna_guardian_pi_lite.Retry.{ag_retry_next_delay}
use antenna_guardian_pi_lite.Main.{
  MainEnv, State, Exit, exit_code, exhausted, Discovery, sleep_interruptibly,
}
use antenna_guardian_pi_lite.Main.{
  stopped as discovery_stopped, failed as discovery_failed, matched,
}
use antenna_guardian_pi_lite.Main.Options.{Options, default_options, read, returns, read_options}

abbrev pub is_stopped : SessionResult → Bool
is_stopped session_stopped = true
is_stopped _ = false

abbrev pub is_unavailable : SessionResult → Bool
is_unavailable session_unavailable = true
is_unavailable _ = false

-- session_config: the configuration with the host and the port of the radio.
unfoldable pub session_config : Config → DiscoveredRadio → Config
session_config config radio = record config {
  host = bounded (max_host + 1) radio.host;
  port = radio.port;
}

module _ {W : Type 0} (env : MainEnv W) where
  unfoldable pub stop_now : State W → Bool × State W
  stop_now s = let (stop, w) = env.stop_requested s.world in (stop, record s { world = w })

  unfoldable pub now : State W → ℕ × State W
  now s = let (ms, w) = env.clock s.world in (ms, record s { world = w })

  unfoldable pub run_session : Config → Bool → State W → Option SessionResult × State W
  run_session config observe_only s =
      let (result, w) = env.session config observe_only s.log_connection_attempt s.world in
      (result, record s { world = w; sessions = config ∷ s.sessions })

  unfoldable pub pause : ℕ → ℕ → State W → Bool × State W
  unfolding sleep_interruptibly
  pause fuel seconds s =
      let (finished, w) = sleep_interruptibly env fuel seconds s.world in
      (finished, record s { world = w; sleeps = seconds ∷ s.sleeps })

  module _ (config : Config) (observe_only once : Bool) (fuel : ℕ) where
    -- if (log_connection_attempt) ... next_unavailable_log = ...
    unfoldable pub plan_log : State W → State W
    unfolding now
    plan_log s =
        let (ms, t) = now s in
        if s.log_connection_attempt
        then record t { next_unavailable_log = ms + config.reconnect_log_seconds * 1000 }
        else s

    -- The assignments behind the sleep.
    unfoldable pub back_off : State W → State W
    unfolding now
    back_off s =
        let (ms, t) = now s in
        record t {
          retry_delay = ag_retry_next_delay s.retry_delay config.reconnect_max_seconds;
          log_connection_attempt = leb s.next_unavailable_log ms;
        }

    unfoldable pub go_on :
        (State W → Exit × State W) → (State W → State W) → Bool × State W → Exit × State W
    go_on again change (false, s) = (exhausted, s)
    go_on again change (true, s) = again (change s)

    -- The end of a round: the sleep and what main does around it.
    unfoldable pub reconnect : (State W → Exit × State W) → SessionResult → State W → Exit × State W
    unfolding plan_log back_off go_on pause
    reconnect again result s =
        if is_unavailable result
        then go_on again back_off (pause fuel s.retry_delay (plan_log s))
        else go_on again (λ t. t)
            (pause fuel config.reconnect_seconds
              (record s { retry_delay = config.reconnect_seconds; log_connection_attempt = true }))

    -- What follows a session in both loops, up to the check of --once.
    unfoldable pub after_session :
        (SessionResult → State W → Exit × State W) → Option SessionResult × State W → Exit × State W
    unfolding stop_now
    after_session next (none, s) = (exhausted, s)
    after_session next (some result, s) =
        let (stop, t) = stop_now s in
        if stop || is_stopped result
        then (exit_code 0, t)
        else if once
        then (exit_code 1, t)
        else next result t

    unfoldable pub direct_loop : ℕ → State W → Exit × State W
    unfolding stop_now run_session after_session reconnect
    direct_loop zero s = (exhausted, s)
    direct_loop (suc rounds) s =
        let (stop, t) = stop_now s in
        elim stop [
          | true ↦ (exit_code 0, t)
          | false ↦
              after_session (reconnect (direct_loop rounds)) (run_session config observe_only t)
        ]

    -- After a session with a discovered radio: only whether to log the next one.
    unfoldable pub rediscover :
        (State W → Exit × State W) → SessionResult → State W → Exit × State W
    rediscover again result s =
        again
          (record s { log_connection_attempt = (if is_unavailable result then false else true) })

    unfoldable pub after_discovery :
        (State W → Exit × State W) → Option Discovery × State W → Exit × State W
    unfolding stop_now run_session after_session rediscover session_config
    after_discovery again (none, s) = (exhausted, s)
    after_discovery again (some discovery_stopped, s) = (exit_code 0, s)
    after_discovery again (some discovery_failed, s) =
        let (stop, t) = stop_now s in (if stop then exit_code 0 else exit_code 1, t)
    after_discovery again (some (matched radio), s) =
        let (stop, t) = stop_now s in
        elim stop [
          | true ↦ (exit_code 0, t)
          | false ↦
              after_session (rediscover again)
                (run_session (session_config config radio) observe_only t)
        ]

    unfoldable pub discovery_loop : ℕ → State W → Exit × State W
    unfolding stop_now after_discovery
    discovery_loop zero s = (exhausted, s)
    discovery_loop (suc rounds) s =
        let (stop, t) = stop_now s in
        elim stop [
          | true ↦ (exit_code 0, t)
          | false ↦
              let (result, w) = env.discover config t.world in
              after_discovery (discovery_loop rounds) (result, record t { world = w })
        ]

  -- The variables in front of the loops.
  unfoldable pub start : Config → W → State W
  start config w = record {
    world = w;
    retry_delay = config.reconnect_seconds;
    next_unavailable_log = 0;
    log_connection_attempt = true;
    sleeps = [];
    sessions = [];
  }

  -- main behind the checks of the configuration.
  unfoldable pub guard_radio : Options → Config → ℕ → ℕ → W → Exit × State W
  unfolding direct_loop discovery_loop start
  guard_radio o config fuel rounds w =
      if is_discovery config.radio_mode
      then discovery_loop config o.observe_only o.once fuel rounds (start config w)
      else direct_loop config o.observe_only o.once fuel rounds (start config w)

-- main: how it ends, and the state where it got as far as a loop.
module _ {W : Type 0} (env : MainEnv W) (load : Text → Loaded Config) where
  unfoldable pub run_configured : Options → Loaded Config → ℕ → ℕ → W → Exit × Option (State W)
  unfolding guard_radio
  run_configured o (failed e) fuel rounds w = (exit_code 2, none)
  run_configured o (loaded config) fuel rounds w =
      let (exit, s) = guard_radio env o config fuel rounds w in
      if o.check_config then (exit_code 0, none) else (exit, some s)

  unfoldable pub main : List Text → ℕ → ℕ → W → Exit × Option (State W)
  unfolding run_configured read_options
  main args fuel rounds w = elim (read_options default_options args) [
    | returns code ↦ (exit_code code, none)
    | read o ↦ run_configured o (load o.config_path) fuel rounds w
  ]
