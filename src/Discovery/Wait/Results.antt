-- ===== src/Discovery/Wait/Results.antt =====
-- ag_discovery_wait: what a matched radio obeys, and that every socket is closed.
use antenna_guardian_pi_lite.Common.{
  ℕ, zero, suc, ◌+◌, Bool, true, false, List, [], ◌∷◌, ◌≡◌, ◌≢◌, refl, ap, ◌∙◌, ◌⊎◌, inl, inr, map,
  arith, Bool-cases,
}
use antenna_guardian_pi_lite.CString.{Text, is_empty, tolower}
use antenna_guardian_pi_lite.CString.Case.{strcmp_eq_iff, strcasecmp_eq_iff}
use antenna_guardian_pi_lite.Config.{Config}
use antenna_guardian_pi_lite.Discovery.{
  DiscoveredRadio, PacketResult, fault, rejected, announced, parse_packet, matches_selector,
}
use antenna_guardian_pi_lite.Discovery.Reads.{parse_packet-ne-fault}
use antenna_guardian_pi_lite.Discovery.Announcements.{IsAnnouncement, parse_packet-IsAnnouncement}
use antenna_guardian_pi_lite.Discovery.Wait.{
  PollResult, poll_failed, poll_interrupted, poll_timed_out, poll_readable, poll_other,
  DiscoveryEnv, DiscoveryResult, discovery_error, discovery_stopped, faulted, exhausted,
  discovery_matched, Sockets, close_with, after_packet, after_datagram, after_poll, after_stop,
  wait_loop, after_bind, after_setsockopt, after_socket, ag_discovery_wait,
}

-- What the selector of the configuration asks of a radio.
pub record IsSelected (config : Config) (r : DiscoveredRadio) : Type 0 where
  pub serial_pinned :
      (config.radio_serial ≡ []) ⊎ (map tolower config.radio_serial ≡ map tolower r.serial)
  pub host_pinned : (config.discovery_ip ≡ []) ⊎ (config.discovery_ip ≡ r.host)

is_empty_nil : (t : Text) → is_empty t ≡ true → t ≡ []
is_empty_nil [] h = refl
is_empty_nil (b ∷ t) h = cc

matches_selector-IsSelected :
    (config : Config) (r : DiscoveredRadio) → matches_selector config r ≡ true → IsSelected config r
unfolding matches_selector
matches_selector-IsSelected config r h = record {
  serial_pinned =
      ground
        (arith, is_empty_nil config.radio_serial, strcasecmp_eq_iff config.radio_serial r.serial);
  host_pinned =
      ground (arith, is_empty_nil config.discovery_ip, strcmp_eq_iff config.discovery_ip r.host);
}

matched_eq : {q r : DiscoveredRadio} → discovery_matched q ≡ discovery_matched r → q ≡ r
matched_eq e = cc

-- What a finished wait may return.
unfoldable pub IsProper : (Text → Bool) → Config → DiscoveryResult → Type 0
IsProper valid_ipv4 config faulted = ⊥
IsProper valid_ipv4 config (discovery_matched r) = IsAnnouncement valid_ipv4 r × IsSelected config r
IsProper valid_ipv4 config _ = Unit

-- The radio of a packet that recv returned.
pub record IsHeard {ℓ} {E : Type ℓ} (env : DiscoveryEnv E) (valid_ipv4 : Text → Bool)
    (r : DiscoveredRadio) : Type ℓ where
  pub before : E
  pub packet : List ℕ
  pub received : (env.recv before).0 ≡ packet
  pub parsed : parse_packet valid_ipv4 packet ≡ announced r

module _ {ℓ} {E : Type ℓ} (env : DiscoveryEnv E) (valid_ipv4 : Text → Bool) (config : Config) where
  abbrev Heard : DiscoveryResult → Type ℓ
  Heard result = (r : DiscoveredRadio) → result ≡ discovery_matched r → IsHeard env valid_ipv4 r

  -- A wait that ends with `opened` sockets open, unless its fuel ends.
  pub record IsClosed (opened : ℕ) (end : DiscoveryResult × Sockets E) : Type ℓ where
    pub proper : IsProper valid_ipv4 config end.0
    pub heard : (r : DiscoveredRadio) → end.0 ≡ discovery_matched r → IsHeard env valid_ipv4 r
    pub closed : end.0 ≢ exhausted → end.1.open_sockets ≡ opened

  close_with-IsClosed :
      (opened : ℕ) (result : DiscoveryResult) (s : Sockets E)
      → IsProper valid_ipv4 config result
      → Heard result
      → s.open_sockets ≡ suc opened
      → IsClosed opened (close_with env valid_ipv4 config result s)
  unfolding close_with
  close_with-IsClosed opened result s h k e = record {
    proper = h;
    heard = k;
    closed = λ _. omega (arith, e);
  }

  module _ (opened : ℕ) (again : Sockets E → DiscoveryResult × Sockets E)
      (again-IsClosed : (s : Sockets E)
        → s.open_sockets ≡ suc opened
        → IsClosed opened (again s)) where
    after_packet-IsClosed :
        (packet : List ℕ) (result : PacketResult) (s : Sockets E)
        → parse_packet valid_ipv4 packet ≡ result
        → (v : E) → (env.recv v).0 ≡ packet
        → s.open_sockets ≡ suc opened
        → IsClosed opened (after_packet env valid_ipv4 config result again s)
    unfolding after_packet IsProper
    after_packet-IsClosed packet fault s parsed v received e =
        absurd (parse_packet-ne-fault valid_ipv4 packet parsed)
    after_packet-IsClosed packet rejected s parsed v received e = again-IsClosed s e
    after_packet-IsClosed packet (announced r) s parsed v received e =
        elim (Bool-cases (matches_selector config r)) [
          | inl selected ↦
              rw (after_packet, selected)
                (close_with-IsClosed opened (discovery_matched r) s
                  (
                    parse_packet-IsAnnouncement valid_ipv4 packet parsed,
                    matches_selector-IsSelected config r selected,
                  )
                  (λ q same. record {
                    before = v;
                    packet = packet;
                    received = received;
                    parsed = parsed ∙ ap announced (matched_eq same);
                  })
                  e)
          | inr other ↦ rw (after_packet, other) (again-IsClosed s e)
        ]

    after_datagram-IsClosed :
        (bytes : List ℕ) (s : Sockets E) (v : E)
        → (env.recv v).0 ≡ bytes
        → s.open_sockets ≡ suc opened
        → IsClosed opened (after_datagram env valid_ipv4 config bytes again s)
    unfolding after_datagram
    after_datagram-IsClosed [] s v received e = again-IsClosed s e
    after_datagram-IsClosed (b ∷ bytes) s v received e =
        after_packet-IsClosed (b ∷ bytes) _ s refl v received e

    after_poll-IsClosed :
        (result : PollResult) (s : Sockets E)
        → s.open_sockets ≡ suc opened
        → IsClosed opened (after_poll env valid_ipv4 config result again s)
    unfolding after_poll IsProper
    after_poll-IsClosed poll_failed s e =
        close_with-IsClosed opened discovery_error s tt (λ r q. cc) e
    after_poll-IsClosed poll_interrupted s e = again-IsClosed s e
    after_poll-IsClosed poll_timed_out s e = again-IsClosed s e
    after_poll-IsClosed poll_other s e = again-IsClosed s e
    after_poll-IsClosed poll_readable s e =
        after_datagram-IsClosed (env.recv s.world).0
          (record { world = (env.recv s.world).1; open_sockets = s.open_sockets }) s.world refl e

    after_stop-IsClosed :
        (stop : Bool) (s : Sockets E)
        → s.open_sockets ≡ suc opened
        → IsClosed opened (after_stop env valid_ipv4 config stop again s)
    unfolding after_stop IsProper
    after_stop-IsClosed true s e = close_with-IsClosed opened discovery_stopped s tt (λ r q. cc) e
    after_stop-IsClosed false s e =
        after_poll-IsClosed (env.poll s.world).0
          (record { world = (env.poll s.world).1; open_sockets = s.open_sockets }) e

  wait_loop-IsClosed :
      (opened fuel : ℕ) (s : Sockets E)
      → s.open_sockets ≡ suc opened
      → IsClosed opened (wait_loop env valid_ipv4 config fuel s)
  unfolding wait_loop IsProper
  wait_loop-IsClosed opened zero s e = record {
    proper = tt;
    heard = λ r q. cc;
    closed = λ h. absurd (h refl);
  }
  wait_loop-IsClosed opened (suc fuel) s e =
      after_stop-IsClosed opened (wait_loop env valid_ipv4 config fuel)
        (wait_loop-IsClosed opened fuel) (env.stop_requested s.world).0
        (record { world = (env.stop_requested s.world).1; open_sockets = s.open_sockets }) e

  after_bind-IsClosed :
      (opened fuel : ℕ) (bound : Bool) (s : Sockets E)
      → s.open_sockets ≡ suc opened
      → IsClosed opened (after_bind env valid_ipv4 config fuel bound s)
  unfolding after_bind IsProper
  after_bind-IsClosed opened fuel false s e =
      close_with-IsClosed opened discovery_error s tt (λ r q. cc) e
  after_bind-IsClosed opened fuel true s e = wait_loop-IsClosed opened fuel s e

  after_setsockopt-IsClosed :
      (opened fuel : ℕ) (enabled : Bool) (s : Sockets E)
      → s.open_sockets ≡ suc opened
      → IsClosed opened (after_setsockopt env valid_ipv4 config fuel enabled s)
  unfolding after_setsockopt IsProper
  after_setsockopt-IsClosed opened fuel false s e =
      close_with-IsClosed opened discovery_error s tt (λ r q. cc) e
  after_setsockopt-IsClosed opened fuel true s e =
      after_bind-IsClosed opened fuel (env.bind s.world).0
        (record { world = (env.bind s.world).1; open_sockets = s.open_sockets }) e

  after_socket-IsClosed :
      (fuel : ℕ) (created : Bool) (s : Sockets E)
      → IsClosed s.open_sockets (after_socket env valid_ipv4 config fuel created s)
  unfolding after_socket IsProper
  after_socket-IsClosed fuel false s = record { proper = tt; heard = λ r q. cc; closed = λ _. refl }
  after_socket-IsClosed fuel true s =
      after_setsockopt-IsClosed s.open_sockets fuel (env.setsockopt s.world).0
        (record { world = (env.setsockopt s.world).1; open_sockets = s.open_sockets + 1 })
        (omega arith)

  -- Whatever the socket library answers and however long the wait goes on: a radio that
  -- ag_discovery_wait returns is what parse_packet makes of a packet that recv returned, it is an
  -- announcement with a valid host, bounded texts and a port, and it is the one that the configuration pins, by serial (in any letter case) and by host, where it pins
  -- them; and unless the fuel ends, as many sockets are open at the end as at the start.
  pub ag_discovery_wait-IsClosed :
      (fuel : ℕ) (s : Sockets E)
      → IsClosed s.open_sockets (ag_discovery_wait env valid_ipv4 config fuel s)
  unfolding ag_discovery_wait
  ag_discovery_wait-IsClosed fuel s =
      after_socket-IsClosed fuel (env.socket s.world).0
        (record { world = (env.socket s.world).1; open_sockets = s.open_sockets })
