-- ===== src/Discovery/Wait.antt =====
-- ag_discovery_wait of src/discovery.c, over an environment for the calls of the socket library.
pub mod Results
pub mod Ends
use antenna_guardian_pi_lite.Common.{ℕ, zero, suc, ◌+◌, ◌-◌, Bool, true, false, List, [], ◌∷◌}
use antenna_guardian_pi_lite.CString.{Text}
use antenna_guardian_pi_lite.Config.{Config}
use antenna_guardian_pi_lite.Discovery.{
  DiscoveredRadio, PacketResult, fault, rejected, announced, parse_packet, matches_selector,
}

-- What poll says of the socket: an error, EINTR, the timeout, POLLIN, or other events.
pub data PollResult : Type 0 where
  poll_failed poll_interrupted poll_timed_out poll_readable poll_other : PollResult

-- The outside of ag_discovery_wait. A call that can only fail or succeed returns whether it
-- succeeds; recv returns the bytes, none when its result is 0 or -1.
pub record DiscoveryEnv {ℓ} (E : Type ℓ) : Type ℓ where
  pub socket : E → Bool × E
  pub setsockopt : E → Bool × E
  pub bind : E → Bool × E
  pub stop_requested : E → Bool × E
  pub poll : E → PollResult × E
  pub recv : E → List ℕ × E
  pub close : E → E

-- The result with the radio behind the pointer; `faulted` is a read out of bounds, `exhausted` the
-- end of the fuel.
pub data DiscoveryResult : Type 0 where
  discovery_error discovery_stopped faulted exhausted : DiscoveryResult
  discovery_matched : DiscoveredRadio → DiscoveryResult

-- The world, and the number of sockets that are open, which the code does not read.
pub record Sockets {ℓ} (E : Type ℓ) : Type ℓ where
  pub world : E
  pub open_sockets : ℕ

module _ {ℓ} {E : Type ℓ} (env : DiscoveryEnv E) (valid_ipv4 : Text → Bool) (config : Config) where
  unfoldable pub close_with : DiscoveryResult → Sockets E → DiscoveryResult × Sockets E
  close_with result s =
      (result, record { world = env.close s.world; open_sockets = s.open_sockets - 1 })

  -- received > 0 && parse_packet(...) && matches_selector(...); `again` is the loop.
  unfoldable pub after_packet :
      PacketResult
      → (Sockets E → DiscoveryResult × Sockets E)
      → Sockets E
      → DiscoveryResult × Sockets E
  unfolding close_with
  after_packet fault again s = close_with faulted s
  after_packet rejected again s = again s
  after_packet (announced radio) again s = elim (matches_selector config radio) [
    | true ↦ close_with (discovery_matched radio) s
    | false ↦ again s
  ]

  unfoldable pub after_datagram :
      List ℕ → (Sockets E → DiscoveryResult × Sockets E) → Sockets E → DiscoveryResult × Sockets E
  unfolding after_packet parse_packet
  after_datagram [] again s = again s
  after_datagram (b ∷ bytes) again s = after_packet (parse_packet valid_ipv4 (b ∷ bytes)) again s

  unfoldable pub after_poll :
      PollResult
      → (Sockets E → DiscoveryResult × Sockets E)
      → Sockets E
      → DiscoveryResult × Sockets E
  unfolding close_with after_datagram
  after_poll poll_failed again s = close_with discovery_error s
  after_poll poll_interrupted again s = again s
  after_poll poll_timed_out again s = again s
  after_poll poll_other again s = again s
  after_poll poll_readable again s =
      let (bytes, world) = env.recv s.world in
      after_datagram bytes again (record { world = world; open_sockets = s.open_sockets })

  -- After the read of the stop flag.
  unfoldable pub after_stop :
      Bool → (Sockets E → DiscoveryResult × Sockets E) → Sockets E → DiscoveryResult × Sockets E
  unfolding close_with after_poll
  after_stop true again s = close_with discovery_stopped s
  after_stop false again s =
      let (result, world) = env.poll s.world in
      after_poll result again (record { world = world; open_sockets = s.open_sockets })

  unfoldable pub wait_loop : ℕ → Sockets E → DiscoveryResult × Sockets E
  unfolding after_stop
  wait_loop zero s = (exhausted, s)
  wait_loop (suc fuel) s =
      let (stop, world) = env.stop_requested s.world in
      after_stop stop (wait_loop fuel) (record { world = world; open_sockets = s.open_sockets })

  unfoldable pub after_bind : ℕ → Bool → Sockets E → DiscoveryResult × Sockets E
  unfolding close_with wait_loop
  after_bind fuel false s = close_with discovery_error s
  after_bind fuel true s = wait_loop fuel s

  unfoldable pub after_setsockopt : ℕ → Bool → Sockets E → DiscoveryResult × Sockets E
  unfolding close_with after_bind
  after_setsockopt fuel false s = close_with discovery_error s
  after_setsockopt fuel true s =
      let (bound, world) = env.bind s.world in
      after_bind fuel bound (record { world = world; open_sockets = s.open_sockets })

  unfoldable pub after_socket : ℕ → Bool → Sockets E → DiscoveryResult × Sockets E
  unfolding after_setsockopt
  after_socket fuel false s = (discovery_error, s)
  after_socket fuel true s =
      let (enabled, world) = env.setsockopt s.world in
      after_setsockopt fuel enabled (record { world = world; open_sockets = s.open_sockets + 1 })

  unfoldable pub ag_discovery_wait : ℕ → Sockets E → DiscoveryResult × Sockets E
  unfolding after_socket
  ag_discovery_wait fuel s =
      let (opened, world) = env.socket s.world in
      after_socket fuel opened (record { world = world; open_sockets = s.open_sockets })
