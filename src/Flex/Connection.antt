-- ===== src/Flex/Connection.antt =====
-- The types of src/flex.c and include/ag_flex.h, the environment of a session, and its effects.
-- `stop_requested`, the clock and the socket belong to the environment: each use is a call of an
-- operation of `Env`, which may change the state S of the outside world.
use antenna_guardian_pi_lite.Common.{ℕ, ◌≤◌, Bool, true, List, ◌∷◌, Option, ◌≡◌, length}
use antenna_guardian_pi_lite.CString.{Text}
use antenna_guardian_pi_lite.Config.{Config}

abbrev pub line_buffer : ℕ
line_buffer = 8192

abbrev pub command_size : ℕ
command_size = 1024

abbrev pub response_body_size : ℕ
response_body_size = 256

abbrev pub command_timeout_ms : ℕ
command_timeout_ms = 4000

-- char command[128], and deferred_command[128]
abbrev pub short_command_size : ℕ
short_command_size = 128

abbrev pub interlock_id_size : ℕ
interlock_id_size = 64

pub record SavedResponse : Type 0 where
  pub used : Bool
  pub sequence : ℕ  -- unsigned
  pub code : ℕ  -- unsigned long
  pub body : Text

-- `receive_buffer` holds the first `receive_length` bytes, `saved_responses` the eight slots.
pub record Connection (D : Type 0) : Type 0 where
  pub config : Config
  pub socket_fd : Option ℕ  -- none is -1
  pub sequence : ℕ  -- unsigned
  pub receive_buffer : List ℕ
  pub interlock_id : Text
  pub observe_only : Bool
  pub has_frequency : Bool
  pub frequency_mhz : D
  pub tx_antenna : Text
  pub command_in_progress : Bool
  pub interlock_update_pending : Bool
  pub pending_interlock_ready : Bool
  pub saved_responses : List SavedResponse

pub data SessionResult : Type 0 where
  session_stopped session_unavailable session_disconnected session_error : SessionResult

-- An int that is 0 or -1.
pub data Status : Type 0 where
  success failure : Status

-- poll(): interrupted is errno == EINTR; `ready` says whether revents has one of POLLERR, POLLHUP,
-- POLLNVAL, and whether it has POLLIN.
pub data PollResult : Type 0 where
  poll_interrupted poll_failed poll_timeout : PollResult
  poll_ready : Bool → Bool → PollResult

-- recv(): `recv_failed` is an error or the end of the stream.
pub data RecvResult : Type 0 where
  recv_interrupted recv_failed : RecvResult
  received : Text → RecvResult

pub data SendResult : Type 0 where
  send_interrupted send_failed : SendResult
  sent : ℕ → SendResult

pub record Env (S : Type 0) : Type 0 where
  pub stop_requested : S → Bool × S
  pub clock : S → ℕ × S  -- monotonic_milliseconds
  pub poll : ℕ → S → PollResult × S  -- with the timeout
  pub recv : ℕ → S → RecvResult × S  -- with the room left
  pub send : Text → S → SendResult × S
  pub connect : Config → S → Option ℕ × S  -- connect_socket
  pub close : S → S
  -- handle_signal of src/main.c sets the flag to 1 and nothing clears it.
  pub stop_kept :
      (s : S) → (stop_requested s).0 ≡ true → (stop_requested (stop_requested s).1).0 ≡ true
  -- recv returns no more bytes than there is room for.
  pub recv_fits :
      (room : ℕ) (s : S) (bytes : Text) → (recv room s).0 ≡ received bytes → length bytes ≤ room

-- One frame handed to send_all: the command in it, and the connection at that moment.
pub record Sent (D : Type 0) : Type 0 where
  pub command : Text
  pub frame : Text
  pub at : Connection D

-- `trace` lists the frames, the last one first. No code reads it.
pub record Session (D S : Type 0) : Type 0 where
  pub conn : Connection D
  pub world : S
  pub trace : List (Sent D)

-- `exhausted`: a loop ran out of its fuel. The session is as the code left it until then.
pub data Outcome (A : Type 0) : Type 0 where
  returned : A → Outcome A
  exhausted : Outcome A

abbrev pub Flex : Type 0 → Type 0 → Type 0 → Type 0
Flex D S A = Session D S → Outcome A × Session D S

module _ {D S A B : Type 0} where
  unfoldable pub continue_with :
      Outcome A × Session D S → (A → Flex D S B) → Outcome B × Session D S
  continue_with (returned a, s) f = f a s
  continue_with (exhausted, s) f = (exhausted, s)

  infixl 5 ◌>>=◌
  unfoldable pub ◌>>=◌ : Flex D S A → (A → Flex D S B) → Flex D S B
  unfolding continue_with
  ◌>>=◌ m f s = continue_with (m s) f

module _ {D S : Type 0} where
  unfoldable pub pure : {A : Type 0} → A → Flex D S A
  pure a s = (returned a, s)

  unfoldable pub give_up : {A : Type 0} → Flex D S A
  give_up s = (exhausted, s)

  unfoldable pub get : Flex D S (Connection D)
  get s = (returned s.conn, s)

  -- Change the connection.
  unfoldable pub modify : (Connection D → Connection D) → Flex D S (Unit {0})
  modify f s = (returned tt, record s { conn = f s.conn })

  infixl 5 ◌>>◌
  abbrev pub ◌>>◌ : {B : Type 0} → Flex D S (Unit {0}) → Flex D S B → Flex D S B
  m >> k = m >>= λ _. k

  -- Call an operation of the environment.
  unfoldable pub call : {A : Type 0} → (S → A × S) → Flex D S A
  call f s = let (a, w) = f s.world in (returned a, record s { world = w })

  unfoldable pub push_trace : Text → Text → Flex D S (Unit {0})
  push_trace command frame s = (
    returned tt,
    record s { trace = record { command = command; frame = frame; at = s.conn } ∷ s.trace },
  )

  -- Run a computation.
  unfoldable pub exec : {A : Type 0} → Flex D S A → Session D S → Outcome A × Session D S
  unfolding ◌>>=◌ pure give_up get modify call push_trace
  exec m s = m s
