-- ===== src/Flex/Connect.antt =====
-- connect_socket of src/flex.c, over an environment for the calls of the socket library: what an
-- environment of a session has as its operation `connect`.
pub mod Closing
use antenna_guardian_pi_lite.Common.{ℕ, Bool, true, false, List, [], ◌∷◌, Option, none, some}
use antenna_guardian_pi_lite.Config.{Config}

-- connect() returned 0, failed with EINPROGRESS, or failed otherwise.
pub data ConnectResult : Type 0 where
  connect_done connect_in_progress connect_refused : ConnectResult

-- A is the type of `struct addrinfo`. A call that can only fail or succeed returns whether it
-- succeeds, and a file descriptor that is negative is none.
pub record ConnectEnv (A S : Type 0) : Type 0 where
  pub stop_requested : S → Bool × S
  pub getaddrinfo : Config → S → Option (List A) × S
  pub socket : A → S → Option ℕ × S
  pub set_nonblocking : ℕ → S → Bool × S  -- fcntl with F_GETFL, and with F_SETFL
  pub connect : ℕ → A → S → ConnectResult × S
  pub poll_writable : ℕ → S → Bool × S  -- poll(&descriptor, 1, 5000) > 0
  pub socket_ready : ℕ → S → Bool × S  -- getsockopt finds no error, and fcntl restores the flags
  pub setsockopts : ℕ → S → S  -- the three options of the connected socket
  pub close : ℕ → S → S

-- The world, and the descriptors that are open, the last one first, which the code does not read.
pub record Descriptors (S : Type 0) : Type 0 where
  pub world : S
  pub opened : List ℕ

module _ {A S : Type 0} (env : ConnectEnv A S) where
  abbrev pub NextAddress : Type 0
  NextAddress = Descriptors S → Option ℕ × Descriptors S

  -- close(socket_fd); socket_fd = -1; continue;
  unfoldable pub drop_socket : ℕ → NextAddress → Descriptors S → List ℕ → Option ℕ × Descriptors S
  drop_socket fd next s before = next (record { world = env.close fd s.world; opened = before })

  -- From getsockopt on; `before` are the descriptors in front of this one.
  unfoldable pub after_wait : ℕ → NextAddress → List ℕ → Bool × S → Option ℕ × Descriptors S
  unfolding drop_socket
  after_wait fd next before (false, w) =
      drop_socket fd next (record { world = w; opened = fd ∷ before }) before
  after_wait fd next before (true, w) =
      let (ready, v) = env.socket_ready fd w in
      let s : Descriptors S = record { world = v; opened = fd ∷ before } in
      elim ready [ true ↦ (some fd, s) | false ↦ drop_socket fd next s before ]

  unfoldable pub after_connecting :
      ℕ → NextAddress → List ℕ → ConnectResult × S → Option ℕ × Descriptors S
  unfolding drop_socket after_wait
  after_connecting fd next before (connect_done, w) = after_wait fd next before (true, w)
  after_connecting fd next before (connect_in_progress, w) =
      after_wait fd next before (env.poll_writable fd w)
  after_connecting fd next before (connect_refused, w) =
      drop_socket fd next (record { world = w; opened = fd ∷ before }) before

  unfoldable pub after_flags : ℕ → A → NextAddress → List ℕ → Bool × S → Option ℕ × Descriptors S
  unfolding drop_socket after_connecting
  after_flags fd address next before (false, w) =
      drop_socket fd next (record { world = w; opened = fd ∷ before }) before
  after_flags fd address next before (true, w) =
      after_connecting fd next before (env.connect fd address w)

  unfoldable pub with_socket : A → NextAddress → List ℕ → Option ℕ × S → Option ℕ × Descriptors S
  unfolding after_flags
  with_socket address next before (none, w) = next (record { world = w; opened = before })
  with_socket address next before (some fd, w) =
      after_flags fd address next before (env.set_nonblocking fd w)

  -- The loop over the addresses; the descriptor of the result is still -1 where it goes on.
  unfoldable pub try_addresses : List A → Descriptors S → Option ℕ × Descriptors S
  unfolding with_socket
  try_addresses [] s = (none, s)
  try_addresses (address ∷ addresses) s =
      let (stop, w) = env.stop_requested s.world in
      elim stop [
        | true ↦ (none, record { world = w; opened = s.opened })
        | false ↦ with_socket address (try_addresses addresses) s.opened (env.socket address w)
      ]

  -- The options of the socket that is returned.
  unfoldable pub set_options : Option ℕ × Descriptors S → Option ℕ × Descriptors S
  set_options (none, s) = (none, s)
  set_options (some fd, s) =
      (some fd, record { world = env.setsockopts fd s.world; opened = s.opened })

  unfoldable pub after_lookup : List ℕ → Option (List A) × S → Option ℕ × Descriptors S
  unfolding try_addresses set_options
  after_lookup before (none, w) = (none, record { world = w; opened = before })
  after_lookup before (some addresses, w) =
      set_options (try_addresses addresses (record { world = w; opened = before }))

  unfoldable pub connect_socket : Config → Descriptors S → Option ℕ × Descriptors S
  unfolding after_lookup
  connect_socket config s = after_lookup s.opened (env.getaddrinfo config s.world)
