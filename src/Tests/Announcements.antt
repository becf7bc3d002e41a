-- ===== src/Tests/Announcements.antt =====
-- Discovery packets, the wait for them, and reconnect delays.
use antenna_guardian_pi_lite.Common.{
  ℕ, zero, suc, ◌*◌, ◌^◌, Bool, true, false, List, [], ◌∷◌, ◌++◌, Option, some, ◌<◌, take, ◌≡◌, ◌≢◌,
  refl, arith,
}
use Prim.Native.Nat.{min}
use antenna_guardian_pi_lite.CString.{
  Text, codes, strcmp_eq, strcasecmp_eq, strchr, before, starts_with,
}
use antenna_guardian_pi_lite.CString.Numbers.{strtoul}
use antenna_guardian_pi_lite.Config.{Config}
use antenna_guardian_pi_lite.Fields.{search_field}
use antenna_guardian_pi_lite.Fields.Segments.{split_spaces, find_segment, search_field-find_segment}
use antenna_guardian_pi_lite.Retry.{ag_retry_next_delay}
use antenna_guardian_pi_lite.Retry.Backoff.{ag_retry_next_delay-min, delay_after, delay_after-min}
use antenna_guardian_pi_lite.Discovery.{
  DiscoveredRadio, fault, field_value, announced, read_network_word, parse_packet, matches_selector,
}
use antenna_guardian_pi_lite.Discovery.Reads.{parse_packet-ne-fault}
use antenna_guardian_pi_lite.Discovery.Announcements.{IsAnnouncement, parse_packet-IsAnnouncement}
use antenna_guardian_pi_lite.Discovery.Wait.{
  poll_readable, DiscoveryEnv, discovery_stopped, discovery_matched, exhausted, Sockets,
  ag_discovery_wait,
}
use antenna_guardian_pi_lite.Discovery.Wait.Results.{IsClosed, ag_discovery_wait-IsClosed}
use antenna_guardian_pi_lite.Discovery.Wait.Ends.{WindsDown, ag_discovery_wait-ends}
use antenna_guardian_pi_lite.Tests.Setup.{station}

abbrev pub only_host : Text → Bool
only_host host = strcmp_eq host (codes "192.0.2.20")

-- A packet of 17 words with the class identifier, no timestamps, and a byte of padding.
abbrev pub beacon : List ℕ
beacon =
    0x38
    ∷ 0
    ∷ 0
    ∷ 17
    ∷ 0
    ∷ 0
    ∷ 8
    ∷ 0
    ∷ 0
    ∷ 0
    ∷ 0x1c
    ∷ 0x2d
    ∷ 0x53
    ∷ 0x4c
    ∷ 0xff
    ∷ 0xff
    ∷ (codes "serial=12-34 ip=192.0.2.20 nickname=shack port=4992" ++ (0 ∷ []))

abbrev shack : DiscoveredRadio
shack = record {
  host = codes "192.0.2.20";
  port = 4992;
  serial = codes "12-34";
  model = [];
  name = codes "shack";
}

parsed : parse_packet only_host beacon ≡ announced shack
unfolding parse_packet strcmp_eq read_network_word strchr field_value before starts_with strtoul
parsed = refl

parse_packet-ne-fault_example : parse_packet only_host (take 40 beacon) ≢ fault
parse_packet-ne-fault_example = parse_packet-ne-fault only_host (take 40 beacon)

parse_packet-IsAnnouncement_example : IsAnnouncement only_host shack
parse_packet-IsAnnouncement_example = parse_packet-IsAnnouncement only_host beacon parsed

-- A network that announces the radio forever; the world is the number of rounds before the stop.
abbrev count_down : ℕ → Bool × ℕ
count_down zero = (true, zero)
count_down (suc n) = (false, n)

abbrev beacon_env : DiscoveryEnv ℕ
beacon_env = record {
  socket = λ n. (true, n);
  setsockopt = λ n. (true, n);
  bind = λ n. (true, n);
  stop_requested = count_down;
  poll = λ n. (poll_readable, n);
  recv = λ n. (beacon, n);
  close = λ n. n;
}

abbrev three_rounds : Sockets ℕ
three_rounds = record { world = 3; open_sockets = 0 }

-- The station pins no radio; `pinned` waits for another one.
abbrev pinned : Config
pinned = record station { radio_serial = codes "ab-cd" }

matched :
    ag_discovery_wait beacon_env only_host station 4 three_rounds
    ≡ (discovery_matched shack, record { world = 2; open_sockets = 0 })
unfolding ag_discovery_wait parse_packet strcmp_eq read_network_word strchr field_value before
    starts_with strtoul matches_selector
matched = refl

stopped : (ag_discovery_wait beacon_env only_host pinned 4 three_rounds).0 ≡ discovery_stopped
unfolding ag_discovery_wait parse_packet strcmp_eq read_network_word strchr field_value before
    starts_with strtoul matches_selector strcasecmp_eq
stopped = refl

ag_discovery_wait-IsClosed_example :
    IsClosed beacon_env only_host station 0
      (ag_discovery_wait beacon_env only_host station 4 three_rounds)
ag_discovery_wait-IsClosed_example =
    ag_discovery_wait-IsClosed beacon_env only_host station 4 three_rounds

clear_left : (n : ℕ) → (count_down n).0 ≡ false → (count_down n).1 < n
clear_left zero h = cc
clear_left (suc n) h = omega arith

beacon_env-WindsDown : WindsDown beacon_env (λ n. n)
beacon_env-WindsDown = record {
  stop_left = clear_left;
  poll_left = λ n. omega arith;
  recv_left = λ n. omega arith;
  socket_left = λ n. omega arith;
  setsockopt_left = λ n. omega arith;
  bind_left = λ n. omega arith;
}

ag_discovery_wait-ends_example :
    (ag_discovery_wait beacon_env only_host pinned 4 three_rounds).0 ≢ exhausted
ag_discovery_wait-ends_example =
    ag_discovery_wait-ends beacon_env only_host pinned (λ n. n) beacon_env-WindsDown 4 three_rounds
      (omega arith)

abbrev keep_all : Text → Option Text
keep_all v = some v

search_field-find_segment_example :
    search_field keep_all (codes "tx=1  freq=14.1 tx_ant=ANT2") (codes "tx_ant")
    ≡ find_segment keep_all (codes "tx_ant") (split_spaces (codes "tx=1  freq=14.1 tx_ant=ANT2"))
search_field-find_segment_example =
    search_field-find_segment keep_all (codes "tx=1  freq=14.1 tx_ant=ANT2") (codes "tx_ant")

ag_retry_next_delay-min_example :
    ag_retry_next_delay 2147483648 4294967295 ≡ min (2 * 2147483648) 4294967295
ag_retry_next_delay-min_example =
    ag_retry_next_delay-min 2147483648 4294967295 (omega arith) (omega arith)

delay_after-min_example : delay_after 5 3 30 ≡ min (3 * 2 ^ 5) 30
delay_after-min_example = delay_after-min 5 3 30 (omega arith) (omega arith)
