-- ===== src/Flex/Run.antt =====
-- initialize_session, remove_interlock and ag_flex_run_session of src/flex.c. `depth` and `fuel`
-- are those of Flex/Commands; the loop of the session takes fuel of its own.
use antenna_guardian_pi_lite.Common.{
  ℕ, zero, suc, ◌+◌, ◌-◌, ◌*◌, Bool, true, false, ◌||◌, List, [], ◌∷◌, ◌++◌, Option, none, some,
  leb, if◌then◌else◌, replicate,
}
use antenna_guardian_pi_lite.CString.{Text, codes, is_empty, strlen, before, bounded}
use antenna_guardian_pi_lite.Config.{AntennaPolicy, Config, max_antennas, max_antenna_id}
use antenna_guardian_pi_lite.Floats.{Floats}
use antenna_guardian_pi_lite.Flex.Connection.{
  Connection, Env, Session, Outcome, Flex, ◌>>=◌, ◌>>◌, pure, give_up, get, modify, call, Status,
  success, failure, SessionResult, session_stopped, session_unavailable, session_disconnected,
  session_error, SavedResponse, line_buffer, command_size, response_body_size, short_command_size,
  interlock_id_size,
}
use antenna_guardian_pi_lite.Flex.Buffer.{read_failed, nothing, got_line, read_line}
use antenna_guardian_pi_lite.Flex.Handlers.{set_interlock, handle_status}
use antenna_guardian_pi_lite.Flex.Commands.{send_command, send_plain}

-- char antennas[AG_MAX_ANTENNAS * (AG_MAX_ANTENNA_ID + 1)]
abbrev pub antennas_size : ℕ
antennas_size = max_antennas * (max_antenna_id + 1)

-- "%s%s" with "" or ",", and the id
unfoldable pub id_piece : Bool → Text → Text
id_piece first id = (if first then [] else b',' ∷ []) ++ id

-- The loop that joins the ids in antennas[256]; none where a piece does not fit.
unfoldable pub join_ids : Bool → Text → List AntennaPolicy → Option Text
unfolding id_piece
join_ids first joined [] = some joined
join_ids first joined (a ∷ antennas) =
    let rest = join_ids false (joined ++ id_piece first a.id) antennas in
    if leb (antennas_size - strlen joined) (strlen (id_piece first a.id)) then none else rest

unfoldable pub create_command : Text → Text
create_command antennas =
    codes "interlock create type=ANT name=AntennaGuardianPiLite serial=raspberrypi valid_antennas="
    ++ antennas

-- "interlock remove %s" in command[128]
unfoldable pub remove_command : Text → Text
remove_command interlock_id = bounded short_command_size (codes "interlock remove " ++ interlock_id)

module _ {D S : Type 0} where
  -- a != 0 || b != 0
  unfoldable pub and_then : Flex D S Status → Flex D S Status → Flex D S Status
  and_then a b = do status ← a; elim status [ failure ↦ pure failure | success ↦ b ]

module _ {D S : Type 0} ⦃fp : Floats D⦄ (env : Env S) (depth fuel : ℕ) where
  unfoldable pub subscribe : Flex D S Status
  unfolding and_then
  subscribe = and_then (send_plain env depth fuel (codes "name AntennaGuardianPiLite")) (
      and_then (send_plain env depth fuel (codes "sub radio all")) (
        and_then (send_plain env depth fuel (codes "sub slice all"))
          (send_plain env depth fuel (codes "sub tx all"))))

  -- The response to `interlock create` holds the id, up to a '|'.
  unfoldable pub adopt_interlock : Option Text → Flex D S Status
  adopt_interlock none = pure failure
  adopt_interlock (some response) =
      let id = before b'|' response in
      if is_empty id || leb interlock_id_size (strlen id) then pure failure else (do
        modify (λ c. record c { interlock_id = id })
        set_interlock (send_plain env depth fuel) false)

  unfoldable pub create_interlock : Option Text → Flex D S Status
  unfolding adopt_interlock create_command
  create_interlock none = pure failure
  create_interlock (some antennas) =
      if leb command_size (strlen (create_command antennas)) then pure failure else (do
        response ← send_command env depth fuel (create_command antennas) response_body_size false
        adopt_interlock response)

  unfoldable pub protect : Flex D S Status
  unfolding create_interlock join_ids
  protect = do
    c ← get
    if c.observe_only then pure success else create_interlock (join_ids true [] c.config.antennas)

  unfoldable pub initialize_session : Flex D S Status
  unfolding subscribe protect and_then
  initialize_session = and_then subscribe protect

  unfoldable pub remove_interlock : Flex D S (Unit {0})
  unfolding remove_command
  remove_interlock = do
    c ← get
    if c.observe_only || is_empty c.interlock_id then pure tt else elim c.socket_fd [
      | none ↦ pure tt
      | some fd ↦ do
        removed ← send_command env depth fuel (remove_command c.interlock_id) 0 true
        modify (λ c. record c { interlock_id = [] })
    ]

  -- while (!*stop_requested) { ... }
  unfoldable pub session_loop : ℕ → Flex D S SessionResult
  session_loop zero = give_up
  session_loop (suc rounds) = do
    stop ← call env.stop_requested
    elim stop [
      | true ↦ pure session_stopped
      | false ↦ do
        r ← read_line env fuel line_buffer 1000
        elim r [
          | read_failed ↦ pure session_disconnected
          | nothing ↦ session_loop rounds
          | got_line line ↦ do
            status ← handle_status (send_plain env depth fuel) line
            elim status [ failure ↦ pure session_error | success ↦ session_loop rounds ]
        ]
    ]

  -- From initialize_session up to the label `cleanup`.
  unfoldable pub connected : ℕ → Flex D S SessionResult
  unfolding initialize_session session_loop
  connected rounds = do
    status ← initialize_session
    elim status [
      | success ↦ session_loop rounds
      | failure ↦ do
        stop ← call env.stop_requested
        pure (if stop then session_stopped else session_error)
    ]

  -- The label `cleanup`, with the result.
  unfoldable pub cleanup : SessionResult → Flex D S SessionResult
  unfolding remove_interlock
  cleanup result = do remove_interlock; call (λ w. (tt, env.close w)); pure result

  unfoldable pub after_connect : ℕ → Option ℕ → Flex D S SessionResult
  unfolding connected cleanup
  after_connect rounds none = do
    stop ← call env.stop_requested
    pure (if stop then session_stopped else session_unavailable)
  after_connect rounds (some fd) = do
    modify (λ c. record c { socket_fd = some fd })
    result ← connected rounds
    cleanup result

abbrev pub no_response : SavedResponse
no_response = record { used = false; sequence = 0; code = 0; body = [] }

-- memset(&connection, 0, ...) and the assignments behind it
unfoldable pub new_connection : {D : Type 0} ⦃fp : Floats D⦄ → Config → Bool → Connection D
new_connection ⦃fp⦄ config observe_only = record {
  config = config;
  socket_fd = none;
  sequence = 0;
  receive_buffer = [];
  interlock_id = [];
  observe_only = observe_only;
  has_frequency = false;
  frequency_mhz = fp.zero_value;
  tx_antenna = [];
  command_in_progress = false;
  interlock_update_pending = false;
  pending_interlock_ready = false;
  saved_responses = replicate 8 no_response;
}

-- ag_flex_run_session from the state `world` of the environment: its result, and the session at
-- its end. The argument log_connection_attempt only concerns the log.
unfoldable pub ag_flex_run_session :
    {D S : Type 0} ⦃fp : Floats D⦄
    → Env S
    → (depth fuel rounds : ℕ) → Config
    → Bool
    → S
    → Outcome SessionResult × Session D S
unfolding after_connect new_connection
ag_flex_run_session env depth fuel rounds config observe_only world =
    (do socket_fd ← call (env.connect config); after_connect env depth fuel rounds socket_fd)
      (record { conn = new_connection config observe_only; world = world; trace = [] })
