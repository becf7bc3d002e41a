-- ===== src/Tests/Connecting.antt =====
-- Connecting to a host of three addresses: the first refuses, the second never answers.
use antenna_guardian_pi_lite.Common.{
  ℕ, true, false, [], ◌∷◌, some, ◌≡◌, refl, ◌+◌, leb, if◌then◌else◌,
}
use antenna_guardian_pi_lite.Flex.Connect.{
  ConnectResult, connect_in_progress, connect_refused, ConnectEnv, Descriptors, connect_socket,
}
use antenna_guardian_pi_lite.Flex.Connect.Closing.{with_result, connect_socket-opened}
use antenna_guardian_pi_lite.Tests.Setup.{station}

abbrev answer_of : ℕ → ConnectResult
answer_of n = if leb n 1 then connect_refused else connect_in_progress

-- The world is the number of the next descriptor.
abbrev three_addresses : ConnectEnv ℕ ℕ
three_addresses = record {
  stop_requested = λ w. (false, w);
  getaddrinfo = λ config w. (some (1 ∷ 2 ∷ 3 ∷ []), w);
  socket = λ address w. (some w, w + 1);
  set_nonblocking = λ fd w. (true, w);
  connect = λ fd address w. (answer_of address, w);
  poll_writable = λ fd w. (leb 9 fd, w);
  socket_ready = λ fd w. (true, w);
  setsockopts = λ fd w. w;
  close = λ fd w. w;
}

abbrev before_connecting : Descriptors ℕ
before_connecting = record { world = 7; opened = 0 ∷ [] }

connects_third :
    connect_socket three_addresses station before_connecting
    ≡ (some 9, record { world = 10; opened = 9 ∷ 0 ∷ [] })
unfolding connect_socket
connects_third = refl

connect_socket-opened_example :
    (connect_socket three_addresses station before_connecting).1.opened
    ≡ with_result (connect_socket three_addresses station before_connecting).0 (0 ∷ [])
connect_socket-opened_example = connect_socket-opened three_addresses station before_connecting
