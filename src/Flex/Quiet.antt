-- ===== src/Flex/Quiet.antt =====
-- Reading, waiting and sending bytes leave the core of a session alone: all but the receive buffer,
-- the saved responses, the socket, the sequence number and the world.
use antenna_guardian_pi_lite.Common.{
  ℕ, zero, suc, Bool, true, false, List, [], ◌∷◌, Option, none, some, ◌≡◌, refl, ap, ◌∙◌,
  if◌then◌else◌, ◌==◌, length, drop,
}
use antenna_guardian_pi_lite.CString.{Text, strchr}
use antenna_guardian_pi_lite.Config.{Config}
use antenna_guardian_pi_lite.Flex.Connection.{
  Connection, Env, Sent, Session, Outcome, returned, exhausted, Flex, continue_with, ◌>>=◌, pure,
  give_up, get, modify, call, line_buffer, poll_interrupted, poll_failed, poll_timeout, poll_ready,
  RecvResult, recv_interrupted, recv_failed, received, send_interrupted, send_failed, sent,
}
use antenna_guardian_pi_lite.Flex.Buffer.{
  ReadResult, read_failed, nothing, got_line, extract_at, extract_line, extract, after_recv,
  receive, poll_loop, after_extract, read_line,
}
use antenna_guardian_pi_lite.Flex.Commands.{send_all, may_go_on, take_saved}

pub record Core (D : Type 0) : Type 0 where
  pub config : Config
  pub interlock_id : Text
  pub observe_only : Bool
  pub has_frequency : Bool
  pub frequency_mhz : D
  pub tx_antenna : Text
  pub command_in_progress : Bool
  pub interlock_update_pending : Bool
  pub pending_interlock_ready : Bool

abbrev pub core_of : {D : Type 0} → Connection D → Core D
core_of c = record {
  config = c.config;
  interlock_id = c.interlock_id;
  observe_only = c.observe_only;
  has_frequency = c.has_frequency;
  frequency_mhz = c.frequency_mhz;
  tx_antenna = c.tx_antenna;
  command_in_progress = c.command_in_progress;
  interlock_update_pending = c.interlock_update_pending;
  pending_interlock_ready = c.pending_interlock_ready;
}

module _ {D S : Type 0} where
  abbrev pub core : Session D S → Core D × List (Sent D)
  core s = (core_of s.conn, s.trace)

  -- The computation leaves the core alone.
  pub record Quiet {A : Type 0} (m : Flex D S A) : Type 0 where
    pub kept : (s : Session D S) → core (m s).1 ≡ core s

module _ {D S A B : Type 0} where
  continue_with-kept :
      (x : Outcome A × Session D S) (f : A → Flex D S B) {c : Core D × List (Sent D)}
      → core x.1 ≡ c
      → ((a : A) → Quiet (f a))
      → core (continue_with x f).1 ≡ c
  unfolding continue_with
  continue_with-kept (returned a, t) f e q = (q a).kept t ∙ e
  continue_with-kept (exhausted, t) f e q = e

  pub bind-Quiet :
      {m : Flex D S A} {f : A → Flex D S B} → Quiet m → ((a : A) → Quiet (f a)) → Quiet (m >>= f)
  unfolding ◌>>=◌
  bind-Quiet {m} {f} qm qf = record { kept = λ s. continue_with-kept (m s) f (qm.kept s) qf }

module _ {D S : Type 0} where
  pub pure-Quiet : {A : Type 0} (a : A) → Quiet {D = D} {S = S} (pure a)
  unfolding pure
  pure-Quiet a = record { kept = λ s. refl }

  pub give_up-Quiet : (A : Type 0) → Quiet {D = D} {S = S} (give_up {A = A})
  unfolding give_up
  give_up-Quiet A = record { kept = λ s. refl }

  pub get-Quiet : Quiet {D = D} {S = S} get
  unfolding get
  get-Quiet = record { kept = λ s. refl }

  pub call-Quiet : {A : Type 0} (f : S → A × S) → Quiet {D = D} {S = S} (call f)
  unfolding call
  call-Quiet f = record { kept = λ s. refl }

  pub modify-Quiet :
      (f : Connection D → Connection D)
      → ((c : Connection D) → core_of (f c) ≡ core_of c)
      → Quiet {D = D} {S = S} (modify f)
  unfolding modify
  modify-Quiet f h = record { kept = λ s. ap (λ c. (c, s.trace)) (h s.conn) }

  pub if-Quiet :
      {A : Type 0} (b : Bool) {m n : Flex D S A} → Quiet m → Quiet n → Quiet (if b then m else n)
  if-Quiet true qm qn = qm
  if-Quiet false qm qn = qn

pub extract_line-core :
    {D : Type 0} (line_size : ℕ) (c : Connection D)
    → core_of (extract_line line_size c).1 ≡ core_of c
unfolding extract_line
extract_line-core {D} line_size c = go (strchr b'\n' c.receive_buffer)
  where
    sized :
        (b : Bool) (content rest : Text)
        → core_of
            (if◌then◌else◌ {A = ReadResult × Connection D} b
              (got_line content, record c { receive_buffer = rest })
              (read_failed, c)).1
          ≡ core_of c
    sized true content rest = refl
    sized false content rest = refl

    go : (found : Option Text) → core_of (extract_at line_size found c).1 ≡ core_of c
    go none = refl
    go (some newline) = sized _ _ _

module _ {D S : Type 0} where
  pub extract-Quiet : (line_size : ℕ) → Quiet (extract {D = D} {S = S} line_size)
  unfolding extract
  extract-Quiet line_size = record {
    kept = λ s.
        unfold ◌>>=◌ continue_with get modify pure in
        ap (λ c. (c, s.trace)) (extract_line-core line_size s.conn);
  }

  after_recv-Quiet :
      (line_size : ℕ) (r : RecvResult) → Quiet (after_recv {D = D} {S = S} line_size r)
  unfolding after_recv
  after_recv-Quiet line_size recv_interrupted = pure-Quiet nothing
  after_recv-Quiet line_size recv_failed = pure-Quiet read_failed
  after_recv-Quiet line_size (received bytes) =
      bind-Quiet (modify-Quiet _ (λ c. refl)) (λ u. extract-Quiet line_size)

module _ {D S : Type 0} (env : Env S) where
  receive-Quiet : (line_size : ℕ) → Quiet (receive {D = D} env line_size)
  unfolding receive
  receive-Quiet line_size = bind-Quiet get-Quiet (λ c.
      if-Quiet (length c.receive_buffer == line_buffer) (pure-Quiet read_failed)
        (bind-Quiet (call-Quiet _) (after_recv-Quiet line_size)))

  poll_loop-Quiet :
      (fuel line_size timeout_ms : ℕ) → Quiet (poll_loop {D = D} env fuel line_size timeout_ms)
  unfolding poll_loop
  poll_loop-Quiet zero line_size timeout_ms = give_up-Quiet _
  poll_loop-Quiet (suc fuel) line_size timeout_ms = bind-Quiet (call-Quiet _) (elim [
    | poll_interrupted ↦ pure-Quiet _
    | poll_failed ↦ pure-Quiet _
    | poll_timeout ↦ pure-Quiet _
    | poll_ready broken readable ↦
        if-Quiet broken (pure-Quiet _)
          (if-Quiet readable (receive-Quiet line_size) (poll_loop-Quiet fuel line_size timeout_ms))
  ])

  after_extract-Quiet :
      (fuel line_size timeout_ms : ℕ) (r : ReadResult)
      → Quiet (after_extract {D = D} env fuel line_size timeout_ms r)
  unfolding after_extract
  after_extract-Quiet fuel line_size timeout_ms read_failed = pure-Quiet _
  after_extract-Quiet fuel line_size timeout_ms (got_line line) = pure-Quiet _
  after_extract-Quiet fuel line_size timeout_ms nothing = bind-Quiet get-Quiet (λ c.
      if-Quiet (length c.receive_buffer == line_buffer) (pure-Quiet _)
        (poll_loop-Quiet fuel line_size timeout_ms))

  pub read_line-Quiet :
      (fuel line_size timeout_ms : ℕ) → Quiet (read_line {D = D} env fuel line_size timeout_ms)
  unfolding read_line
  read_line-Quiet fuel line_size timeout_ms =
      bind-Quiet (extract-Quiet line_size) (after_extract-Quiet fuel line_size timeout_ms)

  pub send_all-Quiet : (fuel : ℕ) (bytes : Text) → Quiet (send_all {D = D} env fuel bytes)
  unfolding send_all
  send_all-Quiet zero [] = pure-Quiet _
  send_all-Quiet zero (b ∷ bytes) = give_up-Quiet _
  send_all-Quiet (suc fuel) [] = pure-Quiet _
  send_all-Quiet (suc fuel) (b ∷ bytes) = bind-Quiet (call-Quiet _) (elim [
    | send_interrupted ↦ send_all-Quiet fuel (b ∷ bytes)
    | send_failed ↦ pure-Quiet _
    | sent n ↦ if-Quiet (n == 0) (pure-Quiet _) (send_all-Quiet fuel (drop n (b ∷ bytes)))
  ])

  pub may_go_on-Quiet : (cleanup : Bool) → Quiet (may_go_on {D = D} env cleanup)
  unfolding may_go_on
  may_go_on-Quiet cleanup =
      if-Quiet cleanup (pure-Quiet _) (bind-Quiet (call-Quiet _) (λ stop. pure-Quiet _))

  pub take_saved-Quiet : (sequence : ℕ) → Quiet (take_saved {D = D} env sequence)
  unfolding take_saved
  take_saved-Quiet sequence =
      bind-Quiet get-Quiet (λ c. bind-Quiet (modify-Quiet _ (λ c'. refl)) (λ u. pure-Quiet _))
