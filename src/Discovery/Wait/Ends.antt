-- ===== src/Discovery/Wait/Ends.antt =====
-- ag_discovery_wait ends when the stop flag is set after finitely many rounds.
use antenna_guardian_pi_lite.Common.{
  ℕ, zero, suc, ◌+◌, ◌≤◌, ◌<◌, Bool, true, false, List, [], ◌∷◌, ◌≡◌, ◌≢◌, refl, inl, inr, arith,
  Bool-cases,
}
use antenna_guardian_pi_lite.CString.{Text}
use antenna_guardian_pi_lite.Config.{Config}
use antenna_guardian_pi_lite.Discovery.{
  PacketResult, fault, rejected, announced, parse_packet, matches_selector,
}
use antenna_guardian_pi_lite.Discovery.Wait.{
  PollResult, poll_failed, poll_interrupted, poll_timed_out, poll_readable, poll_other,
  DiscoveryEnv, DiscoveryResult, exhausted, Sockets, close_with, after_packet, after_datagram,
  after_poll, after_stop, wait_loop, after_bind, after_setsockopt, after_socket, ag_discovery_wait,
}

-- `left` bounds the reads of the stop flag that can still find it clear.
pub record WindsDown {ℓ} {E : Type ℓ} (env : DiscoveryEnv E) (left : E → ℕ) : Type ℓ where
  pub stop_left :
      (world : E)
      → (env.stop_requested world).0 ≡ false
      → left (env.stop_requested world).1 < left world
  pub poll_left : (world : E) → left (env.poll world).1 ≤ left world
  pub recv_left : (world : E) → left (env.recv world).1 ≤ left world
  pub socket_left : (world : E) → left (env.socket world).1 ≤ left world
  pub setsockopt_left : (world : E) → left (env.setsockopt world).1 ≤ left world
  pub bind_left : (world : E) → left (env.bind world).1 ≤ left world

module _ {ℓ} {E : Type ℓ} (env : DiscoveryEnv E) (valid_ipv4 : Text → Bool) (config : Config)
    (left : E → ℕ) (down : WindsDown env left) where
  -- The loop, called again with at most `bound` reads left, ends.
  module _ (bound : ℕ) (again : Sockets E → DiscoveryResult × Sockets E)
      (again_ends : (s : Sockets E) → left s.world < bound → (again s).0 ≢ exhausted) where
    after_packet-ends :
        (result : PacketResult) (s : Sockets E)
        → left s.world < bound
        → (after_packet env valid_ipv4 config result again s).0 ≢ exhausted
    unfolding after_packet close_with
    after_packet-ends fault s h = λ e. cc
    after_packet-ends rejected s h = again_ends s h
    after_packet-ends (announced r) s h = elim (Bool-cases (matches_selector config r)) [
      | inl selected ↦ rw (after_packet, selected) (λ e. cc)
      | inr other ↦ rw (after_packet, other) (again_ends s h)
    ]

    after_datagram-ends :
        (bytes : List ℕ) (s : Sockets E)
        → left s.world < bound
        → (after_datagram env valid_ipv4 config bytes again s).0 ≢ exhausted
    unfolding after_datagram
    after_datagram-ends [] s h = again_ends s h
    after_datagram-ends (b ∷ bytes) s h =
        after_packet-ends (parse_packet valid_ipv4 (b ∷ bytes)) s h

    after_poll-ends :
        (result : PollResult) (s : Sockets E)
        → left s.world < bound
        → (after_poll env valid_ipv4 config result again s).0 ≢ exhausted
    unfolding after_poll close_with
    after_poll-ends poll_failed s h = λ e. cc
    after_poll-ends poll_interrupted s h = again_ends s h
    after_poll-ends poll_timed_out s h = again_ends s h
    after_poll-ends poll_other s h = again_ends s h
    after_poll-ends poll_readable s h =
        after_datagram-ends (env.recv s.world).0
          (record { world = (env.recv s.world).1; open_sockets = s.open_sockets })
          (omega (arith, h, down.recv_left s.world))

    after_stop-ends :
        (stop : Bool) (s : Sockets E)
        → (stop ≡ false → left s.world < bound)
        → (after_stop env valid_ipv4 config stop again s).0 ≢ exhausted
    unfolding after_stop close_with
    after_stop-ends true s h = λ e. cc
    after_stop-ends false s h =
        after_poll-ends (env.poll s.world).0
          (record { world = (env.poll s.world).1; open_sockets = s.open_sockets })
          (omega (arith, h refl, down.poll_left s.world))

  wait_loop-ends :
      (fuel : ℕ) (s : Sockets E)
      → left s.world < fuel
      → (wait_loop env valid_ipv4 config fuel s).0 ≢ exhausted
  unfolding wait_loop
  wait_loop-ends zero s h = absurd (omega (arith, h))
  wait_loop-ends (suc fuel) s h =
      after_stop-ends fuel (wait_loop env valid_ipv4 config fuel) (wait_loop-ends fuel)
        (env.stop_requested s.world).0
        (record { world = (env.stop_requested s.world).1; open_sockets = s.open_sockets })
        (λ clear. omega (arith, h, down.stop_left s.world clear))

  after_bind-ends :
      (fuel : ℕ) (bound : Bool) (s : Sockets E)
      → left s.world < fuel
      → (after_bind env valid_ipv4 config fuel bound s).0 ≢ exhausted
  unfolding after_bind close_with
  after_bind-ends fuel false s h = λ e. cc
  after_bind-ends fuel true s h = wait_loop-ends fuel s h

  after_setsockopt-ends :
      (fuel : ℕ) (enabled : Bool) (s : Sockets E)
      → left s.world < fuel
      → (after_setsockopt env valid_ipv4 config fuel enabled s).0 ≢ exhausted
  unfolding after_setsockopt close_with
  after_setsockopt-ends fuel false s h = λ e. cc
  after_setsockopt-ends fuel true s h =
      after_bind-ends fuel (env.bind s.world).0
        (record { world = (env.bind s.world).1; open_sockets = s.open_sockets })
        (omega (arith, h, down.bind_left s.world))

  after_socket-ends :
      (fuel : ℕ) (opened : Bool) (s : Sockets E)
      → left s.world < fuel
      → (after_socket env valid_ipv4 config fuel opened s).0 ≢ exhausted
  unfolding after_socket
  after_socket-ends fuel false s h = λ e. cc
  after_socket-ends fuel true s h =
      after_setsockopt-ends fuel (env.setsockopt s.world).0
        (record { world = (env.setsockopt s.world).1; open_sockets = s.open_sockets + 1 })
        (omega (arith, h, down.setsockopt_left s.world))

  -- When at most `left` more reads of the stop flag can find it clear, and no call adds to that,
  -- more fuel than that is enough: ag_discovery_wait ends with a radio, stopped or with an error.
  pub ag_discovery_wait-ends :
      (fuel : ℕ) (s : Sockets E)
      → left s.world < fuel
      → (ag_discovery_wait env valid_ipv4 config fuel s).0 ≢ exhausted
  unfolding ag_discovery_wait
  ag_discovery_wait-ends fuel s h =
      after_socket-ends fuel (env.socket s.world).0
        (record { world = (env.socket s.world).1; open_sockets = s.open_sockets })
        (omega (arith, h, down.socket_left s.world))
