-- ===== src/Flex/Connect/Closing.antt =====
-- connect_socket of src/flex.c: the descriptors that it leaves open.
use antenna_guardian_pi_lite.Common.{
  ℕ, Bool, true, false, List, [], ◌∷◌, Option, none, some, ◌≡◌, refl, subst,
}
use antenna_guardian_pi_lite.Config.{Config}
use antenna_guardian_pi_lite.Flex.Connect.{
  ConnectResult, connect_done, connect_in_progress, connect_refused, ConnectEnv, Descriptors,
  NextAddress, drop_socket, after_wait, after_connecting, after_flags, with_socket, try_addresses,
  set_options, after_lookup, connect_socket,
}

-- The descriptors that are open at the end.
abbrev pub with_result : Option ℕ → List ℕ → List ℕ
with_result none before = before
with_result (some fd) before = fd ∷ before

record IsTidy {S : Type 0} (before : List ℕ) (end : Option ℕ × Descriptors S) : Type 0 where
  open_is : end.1.opened ≡ with_result end.0 before

module _ {A S : Type 0} (env : ConnectEnv A S) where
  module _ (before : List ℕ) (next : NextAddress env)
      (next-IsTidy : (s : Descriptors S) → s.opened ≡ before → IsTidy before (next s)) where
    after_wait-IsTidy :
        (fd : ℕ) (waited : Bool × S) → IsTidy before (after_wait env fd next before waited)
    unfolding after_wait drop_socket
    after_wait-IsTidy fd (false, w) = next-IsTidy _ refl
    after_wait-IsTidy fd (true, w) =
        of_ready (env.socket_ready fd w).0 (env.socket_ready fd w).1 (next-IsTidy _ refl)
      where
        of_ready :
            (ready : Bool) (v : S) {end : Option ℕ × Descriptors S}
            → IsTidy before end
            → IsTidy {S = S} before (elim ready [
              | true ↦ (some fd, record { world = v; opened = fd ∷ before })
              | false ↦ end
            ])
        of_ready true v h = record { open_is = refl }
        of_ready false v h = h

    after_connecting-IsTidy :
        (fd : ℕ) (tried : ConnectResult × S)
        → IsTidy before (after_connecting env fd next before tried)
    unfolding after_connecting drop_socket
    after_connecting-IsTidy fd (connect_done, w) = after_wait-IsTidy fd (true, w)
    after_connecting-IsTidy fd (connect_in_progress, w) =
        after_wait-IsTidy fd (env.poll_writable fd w)
    after_connecting-IsTidy fd (connect_refused, w) = next-IsTidy _ refl

    after_flags-IsTidy :
        (fd : ℕ) (address : A) (flags : Bool × S)
        → IsTidy before (after_flags env fd address next before flags)
    unfolding after_flags drop_socket
    after_flags-IsTidy fd address (false, w) = next-IsTidy _ refl
    after_flags-IsTidy fd address (true, w) = after_connecting-IsTidy fd (env.connect fd address w)

    with_socket-IsTidy :
        (address : A) (made : Option ℕ × S)
        → IsTidy before (with_socket env address next before made)
    unfolding with_socket
    with_socket-IsTidy address (none, w) = next-IsTidy _ refl
    with_socket-IsTidy address (some fd, w) =
        after_flags-IsTidy fd address (env.set_nonblocking fd w)

  try_addresses-IsTidy :
      (addresses : List A) (s : Descriptors S) → IsTidy s.opened (try_addresses env addresses s)
  unfolding try_addresses
  try_addresses-IsTidy [] s = record { open_is = refl }
  try_addresses-IsTidy (address ∷ addresses) s =
      let (stop, w) = env.stop_requested s.world in
      of_stop stop w (
        with_socket-IsTidy s.opened (try_addresses env addresses)
          (λ t e.
            subst (λ b. IsTidy b (try_addresses env addresses t)) e
              (try_addresses-IsTidy addresses t))
          address (env.socket address w))
    where
      of_stop :
          (stop : Bool) (w : S) {end : Option ℕ × Descriptors S}
          → IsTidy s.opened end
          → IsTidy {S = S} s.opened
              (elim stop [ true ↦ (none, record { world = w; opened = s.opened }) | false ↦ end ])
      of_stop true w h = record { open_is = refl }
      of_stop false w h = h

  set_options-IsTidy :
      (before : List ℕ) (end : Option ℕ × Descriptors S)
      → IsTidy before end
      → IsTidy before (set_options env end)
  unfolding set_options
  set_options-IsTidy before (none, s) h = h
  set_options-IsTidy before (some fd, s) h = record { open_is = h.open_is }

  after_lookup-IsTidy :
      (before : List ℕ) (found : Option (List A) × S)
      → IsTidy before (after_lookup env before found)
  unfolding after_lookup
  after_lookup-IsTidy before (none, w) = record { open_is = refl }
  after_lookup-IsTidy before (some addresses, w) =
      set_options-IsTidy before _
        (try_addresses-IsTidy addresses (record { world = w; opened = before }))

  -- Whatever the socket library answers: at the end of connect_socket the descriptors are open that
  -- were open before, and the one that it returns, if it returns one.
  pub connect_socket-opened :
      (config : Config) (s : Descriptors S)
      → (connect_socket env config s).1.opened
        ≡ with_result (connect_socket env config s).0 s.opened
  unfolding connect_socket
  connect_socket-opened config s =
      (after_lookup-IsTidy s.opened (env.getaddrinfo config s.world)).open_is
