-- ===== src/Main.antt =====
-- src/main.c: its state, its environment, and the interruptible sleep. A session and the wait for an
-- announcement are operations of the environment, which Main/Whole fills with those of Flex and
-- Discovery; a none of theirs is a loop of theirs without fuel left. The signal handler is the stop
-- flag of the environment.
pub mod Options
pub mod Summary
pub mod Loops
pub mod Delays
pub mod Backoff
pub mod Radios
pub mod Whole
use antenna_guardian_pi_lite.Common.{
  ℕ, zero, suc, ◌*◌, ◌%◌, ◌^◌, Bool, true, false, List, [], ◌∷◌, Option, none, some,
}
use antenna_guardian_pi_lite.Config.{Config}
use antenna_guardian_pi_lite.Discovery.{DiscoveredRadio}
use antenna_guardian_pi_lite.Flex.Connection.{SessionResult}

-- What ag_discovery_wait returns, with the radio.
pub data Discovery : Type 0 where
  stopped failed : Discovery
  matched : DiscoveredRadio → Discovery

pub record MainEnv (W : Type 0) : Type 0 where
  pub stop_requested : W → Bool × W
  -- nanosleep for 200 ms: true when it returned -1 with EINTR
  pub nanosleep : W → Bool × W
  pub clock : W → ℕ × W  -- monotonic_milliseconds
  -- ag_flex_run_session, with observe_only and log_connection_attempt
  pub session : Config → Bool → Bool → W → Option SessionResult × W
  pub discover : Config → W → Option Discovery × W

-- The variables of main. `sleeps` and `sessions` list the calls of sleep_interruptibly and of
-- ag_flex_run_session, the last one first, and no code reads them.
pub record State (W : Type 0) : Type 0 where
  pub world : W
  pub retry_delay : ℕ  -- unsigned
  pub next_unavailable_log : ℕ
  pub log_connection_attempt : Bool
  pub sleeps : List ℕ
  pub sessions : List Config

-- How main ends; `exhausted` is the end of the fuel.
pub data Exit : Type 0 where
  exit_code : ℕ → Exit
  exhausted : Exit

module _ {W : Type 0} (env : MainEnv W) where
  -- The inner loop: false when the fuel ends.
  unfoldable pub nap : ℕ → W → Bool × W
  nap zero w = (false, w)
  nap (suc fuel) w =
      let (interrupted, slept) = env.nanosleep w in
      elim interrupted [
        | false ↦ (true, slept)
        | true ↦
            let (stop, read) = env.stop_requested slept in
            elim stop [ true ↦ (true, read) | false ↦ nap fuel read ]
      ]

  -- The outer loop, with `rounds` iterations left.
  unfoldable pub sleep_rounds : ℕ → ℕ → W → Bool × W
  unfolding nap
  sleep_rounds fuel zero w = (true, w)
  sleep_rounds fuel (suc rounds) w =
      let (stop, read) = env.stop_requested w in
      elim stop [
        | true ↦ (true, read)
        | false ↦
            let (finished, rested) = nap fuel read in
            elim finished [ false ↦ (false, rested) | true ↦ sleep_rounds fuel rounds rested ]
      ]

  unfoldable pub sleep_interruptibly : ℕ → ℕ → W → Bool × W
  unfolding sleep_rounds
  sleep_interruptibly fuel seconds w = sleep_rounds fuel (seconds * 5 % 2 ^ 32) w
