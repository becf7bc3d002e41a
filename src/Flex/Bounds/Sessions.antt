-- ===== src/Flex/Bounds/Sessions.antt =====
-- A whole session and the arrays of its connection: ag_flex_run_session of src/flex.c.
use antenna_guardian_pi_lite.Common.{
  ℕ, zero, suc, ◌<◌, Bool, true, false, ◌||◌, List, [], Option, none, some, refl, inl, inr, arith,
  Bool-cases, leb, length,
}
use antenna_guardian_pi_lite.CString.{Text, is_empty, strlen, before}
use antenna_guardian_pi_lite.Config.{Config}
use antenna_guardian_pi_lite.Floats.{Floats}
use antenna_guardian_pi_lite.Flex.Connection.{
  SavedResponse, Env, Flex, Status, success, failure, line_buffer, command_size, response_body_size,
  interlock_id_size,
}
use antenna_guardian_pi_lite.Flex.Buffer.{read_failed, nothing, got_line}
use antenna_guardian_pi_lite.Flex.Commands.{send_plain}
use antenna_guardian_pi_lite.Flex.Run.{
  and_then, subscribe, adopt_interlock, create_interlock, create_command, join_ids, protect,
  initialize_session, remove_interlock, session_loop, connected, cleanup, after_connect,
  new_connection, ag_flex_run_session,
}
use antenna_guardian_pi_lite.Flex.Bounds.{
  IsBounded, Bounded, Keeps, bind-Keeps, pure-Keeps, give_up-Keeps, get-Keeps, call-Keeps,
  modify-Keeps, if-Keeps, option-Keeps,
}
use antenna_guardian_pi_lite.Flex.Bounds.Reading.{read_line-Keeps}
use antenna_guardian_pi_lite.Flex.Bounds.Commands.{
  set_interlock-Keeps, handle_status-Keeps, send_command-Keeps, send_plain-Keeps,
}

with_id :
    {buffer id antenna : Text} {slots : List SavedResponse} (new : Text)
    → length new < interlock_id_size
    → IsBounded buffer id antenna slots
    → IsBounded buffer new antenna slots
with_id new h b = record {
  buffer_fits = b.buffer_fits;
  id_fits = h;
  antenna_fits = b.antenna_fits;
  slots_are = b.slots_are;
  bodies_fit = b.bodies_fit;
}

and_then-Keeps : {D S : Type 0} {a b : Flex D S Status} → Keeps a → Keeps b → Keeps (and_then a b)
unfolding and_then
and_then-Keeps ha hb = bind-Keeps ha (elim [ failure ↦ pure-Keeps _ | success ↦ hb ])

module _ {D S : Type 0} ⦃fp : Floats D⦄ (env : Env S) (depth fuel : ℕ) where
  plain-Keeps : (command : Text) → Keeps {D = D} (send_plain env depth fuel command)
  plain-Keeps = send_plain-Keeps env depth fuel

  adopt_interlock-Keeps :
      (response : Option Text) → Keeps {D = D} (adopt_interlock env depth fuel response)
  unfolding adopt_interlock
  adopt_interlock-Keeps none = pure-Keeps failure
  adopt_interlock-Keeps (some response) =
      let id = before b'|' response in
      elim (Bool-cases (is_empty id || leb interlock_id_size (strlen id))) [
        | inl bad ↦ rw (adopt_interlock, bad) (pure-Keeps failure)
        | inr good ↦
            rw (adopt_interlock, good)
              (bind-Keeps (modify-Keeps _ (λ c b. with_id id (ground (arith, good)) b))
                (λ u. set_interlock-Keeps (send_plain env depth fuel) plain-Keeps false))
      ]

  create_interlock-Keeps :
      (antennas : Option Text) → Keeps {D = D} (create_interlock env depth fuel antennas)
  unfolding create_interlock
  create_interlock-Keeps none = pure-Keeps failure
  create_interlock-Keeps (some antennas) =
      if-Keeps (leb command_size (strlen (create_command antennas))) (pure-Keeps failure) (
        bind-Keeps
          (send_command-Keeps env depth fuel (create_command antennas) response_body_size false)
          adopt_interlock-Keeps)

  initialize_session-Keeps : Keeps {D = D} (initialize_session env depth fuel)
  unfolding initialize_session subscribe protect
  initialize_session-Keeps =
      and_then-Keeps
        (and_then-Keeps (plain-Keeps _)
          (and_then-Keeps (plain-Keeps _) (and_then-Keeps (plain-Keeps _) (plain-Keeps _))))
        (bind-Keeps get-Keeps (λ c.
          if-Keeps c.observe_only (pure-Keeps success)
            (create_interlock-Keeps (join_ids true [] c.config.antennas))))

  remove_interlock-Keeps : Keeps {D = D} (remove_interlock env depth fuel)
  unfolding remove_interlock
  remove_interlock-Keeps = bind-Keeps get-Keeps (λ c.
      if-Keeps (c.observe_only || is_empty c.interlock_id) (pure-Keeps tt) (
        option-Keeps c.socket_fd (pure-Keeps tt) (λ fd.
          bind-Keeps (send_command-Keeps env depth fuel _ 0 true)
            (λ removed. modify-Keeps _ (λ d b. with_id [] (omega arith) b)))))

  session_loop-Keeps : (rounds : ℕ) → Keeps {D = D} (session_loop env depth fuel rounds)
  unfolding session_loop
  session_loop-Keeps zero = give_up-Keeps _
  session_loop-Keeps (suc rounds) = bind-Keeps (call-Keeps _) (elim [
    | true ↦ pure-Keeps _
    | false ↦ bind-Keeps (read_line-Keeps env fuel line_buffer 1000) (elim [
      | read_failed ↦ pure-Keeps _
      | nothing ↦ session_loop-Keeps rounds
      | got_line line ↦
          bind-Keeps (handle_status-Keeps (send_plain env depth fuel) plain-Keeps line)
            (elim [ failure ↦ pure-Keeps _ | success ↦ session_loop-Keeps rounds ])
    ])
  ])

  connected-Keeps : (rounds : ℕ) → Keeps {D = D} (connected env depth fuel rounds)
  unfolding connected
  connected-Keeps rounds = bind-Keeps initialize_session-Keeps (elim [
    | success ↦ session_loop-Keeps rounds
    | failure ↦ bind-Keeps (call-Keeps _) (λ stop. pure-Keeps _)
  ])

  after_connect-Keeps :
      (rounds : ℕ) (fd : Option ℕ) → Keeps {D = D} (after_connect env depth fuel rounds fd)
  unfolding after_connect cleanup
  after_connect-Keeps rounds none = bind-Keeps (call-Keeps _) (λ stop. pure-Keeps _)
  after_connect-Keeps rounds (some fd) = bind-Keeps (modify-Keeps _ (λ c b. b)) (λ u.
      bind-Keeps (connected-Keeps rounds) (λ result.
        bind-Keeps remove_interlock-Keeps
          (λ v. bind-Keeps (call-Keeps _) (λ w. pure-Keeps result))))

-- Whatever the radio sends, the clock says and the configuration is, and however long the session goes
-- on: its receive buffer holds at most AG_LINE_BUFFER bytes, the interlock id, the antenna name and the
-- body of each saved response fit their arrays with the NUL, and there are eight saved responses.
pub ag_flex_run_session-Bounded :
    (D : Type 0) {S : Type 0} ⦃fp : Floats D⦄ (env : Env S) (depth fuel rounds : ℕ)
    (config : Config) (observe_only : Bool) (world : S)
    → Bounded (ag_flex_run_session {D = D} env depth fuel rounds config observe_only world).1.conn
unfolding ag_flex_run_session new_connection
ag_flex_run_session-Bounded D env depth fuel rounds config observe_only world =
    (bind-Keeps (call-Keeps (env.connect config)) (after_connect-Keeps env depth fuel rounds)).kept
      (record { conn = new_connection config observe_only; world = world; trace = [] })
      (record {
        buffer_fits = omega arith;
        id_fits = omega arith;
        antenna_fits = omega arith;
        slots_are = refl;
        bodies_fit = omega arith;
      })
