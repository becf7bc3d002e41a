-- ===== src/Tests/Programs.antt =====
-- The options of main, and its loops over a radio that is never there and over one that announces.
use antenna_guardian_pi_lite.Common.{
  ℕ, suc, true, false, List, [], ◌∷◌, none, some, ◌≡◌, refl, arith, length, All,
}
use antenna_guardian_pi_lite.CString.{Text, codes, strcmp_eq}
use antenna_guardian_pi_lite.CString.Numbers.{print_unsigned}
use antenna_guardian_pi_lite.Config.{Config, radio_discovery}
use antenna_guardian_pi_lite.Config.Selected.{IsTimed}
use antenna_guardian_pi_lite.Discovery.Wait.{DiscoveryEnv, poll_readable}
use antenna_guardian_pi_lite.Flex.Connection.{session_unavailable}
use antenna_guardian_pi_lite.Main.{MainEnv}
use antenna_guardian_pi_lite.Main.Options.{Options, default_options, read, returns, read_options}
use antenna_guardian_pi_lite.Main.Options.Words.{Means}
use antenna_guardian_pi_lite.Main.Options.Meaning.{read_options-Means}
use antenna_guardian_pi_lite.Main.Summary.{print_config_summary}
use antenna_guardian_pi_lite.Main.Loops.{start, direct_loop, discovery_loop}
use antenna_guardian_pi_lite.Main.Delays.{EndsWell, direct_loop-EndsWell}
use antenna_guardian_pi_lite.Main.Backoff.{IsUnreachable, delays, direct_loop-delays}
use antenna_guardian_pi_lite.Main.Whole.{whole_env, IsTargeted, discovery_loop-IsTargeted}
use antenna_guardian_pi_lite.Policy.{has_band}
use antenna_guardian_pi_lite.Tests.Announcements.{beacon, only_host}
use antenna_guardian_pi_lite.Tests.Setup.{milli_floats, Script, script_env, station}

abbrev observing : Options
observing = record default_options { config_path = codes "a.json"; observe_only = true }

first_options :
    read_options default_options (codes "-c" ∷ codes "a.json" ∷ codes "--observe" ∷ [])
    ≡ read observing
unfolding read_options strcmp_eq
first_options = refl

abbrev bogus_line : List Text
bogus_line = codes "-c" ∷ codes "a.json" ∷ codes "--observe" ∷ codes "--bogus" ∷ []

read_options-Means_example :
    Means default_options bogus_line (read_options default_options bogus_line)
read_options-Means_example = read_options-Means default_options bogus_line

bogus_option : read_options default_options bogus_line ≡ returns 2
unfolding read_options strcmp_eq
bogus_option = refl

summary :
    print_config_summary station
    ≡ codes
        "Configuration valid\nRadio: 192.0.2.20:4992\nReconnect: 3 seconds initial, 30 seconds maximum\nUnavailable log interval: 300 seconds\nANT1: 40m, 20m\nANT2: 20m\n"
unfolding print_config_summary print_unsigned has_band
summary = refl

-- Nothing answers, and the world is the time.
abbrev away_env : MainEnv ℕ
away_env = record {
  stop_requested = λ n. (false, n);
  nanosleep = λ n. (false, suc n);
  clock = λ n. (n, n);
  session = λ config observe_only log n. (some session_unavailable, n);
  discover = λ config n. (none, n);
}

away_env-IsUnreachable : IsUnreachable away_env
away_env-IsUnreachable = record { runs = λ w. refl; rests = λ w. refl; away = λ c o l w. refl }

station-IsTimed : IsTimed station
station-IsTimed = record {
  port_range = omega arith;
  initial_range = omega arith;
  max_range = omega arith;
  log_range = omega arith;
}

direct_loop-EndsWell_example :
    EndsWell station false (direct_loop away_env station false false 1 2 (start away_env station 0))
unfolding start
direct_loop-EndsWell_example =
    direct_loop-EndsWell away_env station false false 1 station-IsTimed 2 (start away_env station 0)
      (record { next = omega arith; slept = tt })

direct_loop-delays_example :
    let end = direct_loop away_env station false false 1 4 (start away_env station 0) in
    (length end.1.sessions ≡ 4) × (end.1.sleeps ≡ delays 4 3 30)
direct_loop-delays_example =
    direct_loop-delays away_env away_env-IsUnreachable 0 station false station-IsTimed 4 0

four_delays : delays 4 3 30 ≡ 24 ∷ 12 ∷ 6 ∷ 3 ∷ []
unfolding delays
four_delays = refl

abbrev seeking : Config
seeking = record station {
  radio_mode = radio_discovery;
  host = [];
  discovery_ip = codes "192.0.2.20";
}

abbrev beacon_udp : DiscoveryEnv Script
beacon_udp = record {
  socket = λ s. (true, s);
  setsockopt = λ s. (true, s);
  bind = λ s. (true, s);
  stop_requested = script_env.stop_requested;
  poll = λ s. (poll_readable, s);
  recv = λ s. (beacon, s);
  close = λ s. s;
}

discovery_loop-IsTargeted_example :
    let env = whole_env ℕ script_env beacon_udp (λ s. (false, s)) only_host 20 20 in
    All
      (IsTargeted ℕ script_env beacon_udp (λ s. (false, s)) only_host 20 20 seeking)
      (discovery_loop env seeking false true 1 2
        (start env seeking (codes "R1|1|\n" ∷ []))).1.sessions
discovery_loop-IsTargeted_example =
    discovery_loop-IsTargeted ℕ script_env beacon_udp (λ s. (false, s)) only_host 20 20 seeking
      false true 1 2 (codes "R1|1|\n" ∷ [])
