-- ===== src/Tests/Sessions.antt =====
-- A session against a scripted radio.
use antenna_guardian_pi_lite.Common.{ℕ, [], ◌∷◌, none, some, arith, ◌≡◌, refl, All, false}
use antenna_guardian_pi_lite.CString.{
  bounded, codes, strcmp_eq, strcasecmp_eq, starts_with, before, strchr,
}
use antenna_guardian_pi_lite.CString.Numbers.{
  read_digits, starts_with_digit, strtoul, print_unsigned,
}
use antenna_guardian_pi_lite.Config.{ag_config_find_antenna}
use antenna_guardian_pi_lite.Policy.{
  policy_allows, is_missing, find_policy, band_for_frequency, ag_policy_evaluate,
}
use antenna_guardian_pi_lite.Flex.Buffer.{got_line, extract_line, read_line}
use antenna_guardian_pi_lite.Flex.Commands.{
  send_all, await_response, send_command_once, send_command, send_plain,
}
use antenna_guardian_pi_lite.Flex.Connection.{
  Connection, Session, line_buffer, response_body_size, returned, pure, success, exec,
}
use antenna_guardian_pi_lite.Flex.Fields.{field_value}
use antenna_guardian_pi_lite.Flex.Handlers.{set_interlock, evaluate_context, handle_status}
use antenna_guardian_pi_lite.Flex.Lines.{with_cr, whole, extract_line-newline}
use antenna_guardian_pi_lite.Flex.Answers.{response_line, parse_response-response_line}
use antenna_guardian_pi_lite.Flex.Cache.{has_free, take_response-save_response}
use antenna_guardian_pi_lite.Flex.Nesting.Commands.{send_command-depth}
use antenna_guardian_pi_lite.Flex.Partial.{await_response-partial}
use antenna_guardian_pi_lite.Flex.Responses.{
  Response, save_response, parse_response, take_response, accept_response,
}
use antenna_guardian_pi_lite.Flex.Run.{new_connection, ag_flex_run_session}
use antenna_guardian_pi_lite.Flex.Safety.{IsAuthorised}
use antenna_guardian_pi_lite.Flex.Safety.Whole.{ag_flex_run_session-Authorised}
use antenna_guardian_pi_lite.Flex.Protocol.{commands, Spoken}
use antenna_guardian_pi_lite.Flex.Protocol.Whole.{ag_flex_run_session-Spoken}
use antenna_guardian_pi_lite.Flex.Bounds.{Bounded}
use antenna_guardian_pi_lite.Flex.Bounds.Sessions.{ag_flex_run_session-Bounded}
use antenna_guardian_pi_lite.Tests.Setup.{milli_floats, Script, script_env, station}

abbrev ptt_session : Script
ptt_session =
    codes "R1|0|\n"
    ∷ codes "R2|0|\n"
    ∷ codes "R3|0|\n"
    ∷ codes "R4|0|\n"
    ∷ codes "R5|0|7|ok\n"
    ∷ codes "S0|transmit freq=14.074 tx_antenna=ANT1\nR6|0|\n"
    ∷ codes "S0|interlock state=PTT_REQUESTED\n"
    ∷ codes "R7|0|\n"
    ∷ []

commands-ptt_session :
    commands (ag_flex_run_session {D = ℕ} script_env 1 20 20 station false ptt_session).1.trace
    ≡ codes "interlock remove 7"
      ∷ codes "interlock ready 7"
      ∷ codes "interlock not_ready 7"
      ∷ codes
          "interlock create type=ANT name=AntennaGuardianPiLite serial=raspberrypi valid_antennas=ANT1,ANT2"
      ∷ codes "sub tx all"
      ∷ codes "sub slice all"
      ∷ codes "sub radio all"
      ∷ codes "name AntennaGuardianPiLite"
      ∷ []
unfolding ag_flex_run_session exec send_plain send_command_once send_all print_unsigned
    take_response read_line extract_line strchr before parse_response strtoul accept_response
    set_interlock handle_status starts_with evaluate_context ag_policy_evaluate field_value
    strcmp_eq strcasecmp_eq is_missing find_policy ag_config_find_antenna policy_allows
    band_for_frequency read_digits starts_with_digit
commands-ptt_session = refl

ag_flex_run_session-Authorised_example :
    All IsAuthorised
      (ag_flex_run_session {D = ℕ} script_env 1 20 20 station false ptt_session).1.trace
ag_flex_run_session-Authorised_example =
    ag_flex_run_session-Authorised ℕ script_env 1 20 20 station false ptt_session

ag_flex_run_session-Spoken_example :
    Spoken false (ag_flex_run_session {D = ℕ} script_env 1 20 20 station false ptt_session).1
ag_flex_run_session-Spoken_example =
    ag_flex_run_session-Spoken ℕ script_env 1 20 20 station false ptt_session

ag_flex_run_session-Bounded_example :
    Bounded (ag_flex_run_session {D = ℕ} script_env 1 20 20 station false ptt_session).1.conn
ag_flex_run_session-Bounded_example =
    ag_flex_run_session-Bounded ℕ script_env 1 20 20 station false ptt_session

-- A connection that waits for the response to its first command, which comes in two pieces.
abbrev waiting : Session ℕ Script
waiting = record {
  conn = new_connection station false;
  world = codes "R1|0" ∷ codes "|\n" ∷ [];
  trace = [];
}

await_response-partial_example :
    (await_response {D = ℕ} script_env (λ line. pure success) 5 1 4000 0 false waiting).0
    ≡ returned none
unfolding take_response strchr new_connection
await_response-partial_example =
    await_response-partial script_env (λ line. pure success) 3 1 4000 0 waiting 0
      (new_connection {D = ℕ} station false).saved_responses (codes "R1|0") refl refl refl refl refl
      refl refl refl refl

send_command-depth_example :
    send_command {D = ℕ} script_env 3 5 (codes "sub tx all") 0 false waiting
    ≡ send_command {D = ℕ} script_env 1 5 (codes "sub tx all") 0 false waiting
send_command-depth_example = send_command-depth script_env 2 5 (codes "sub tx all") 0 false waiting

-- A line with its '\r', and the beginning of the next one.
abbrev buffered : Connection ℕ
buffered = record (new_connection station false) { receive_buffer = codes "R1|0|\r\nS2" }

extract_line-newline_example :
    extract_line line_buffer buffered
    ≡ (got_line (codes "R1|0|"), record buffered { receive_buffer = codes "S2" })
unfolding strchr new_connection
extract_line-newline_example =
    extract_line-newline buffered (codes "R1|0|\r") (codes "R1|0|") (codes "R1|0|") (codes "S2")
      refl refl (omega arith) with_cr (whole refl)

abbrev early : Response
early = record { sequence = 7; code = 0; body = codes "ok" }

take_response-save_response_example :
    (take_response 7 (save_response early (new_connection {D = ℕ} station false).saved_responses)).0
    ≡ some (0, bounded response_body_size (codes "ok"))
unfolding has_free take_response new_connection
take_response-save_response_example =
    take_response-save_response early (new_connection {D = ℕ} station false).saved_responses refl
      refl

parse_response-response_line_example :
    parse_response (response_line 7 1342177333 (codes "rejected"))
    ≡ some (record { sequence = 7; code = 1342177333; body = codes "rejected" })
parse_response-response_line_example =
    parse_response-response_line 7 1342177333 (codes "rejected") (omega arith) (omega arith)
