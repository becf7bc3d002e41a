-- ===== src/Lib.antt =====
-- AntennaGuardianPiLite: the antenna interlock daemon, in C.
--
-- The program reads a strict JSON configuration (src/config.c), finds its radio by a fixed host or by
-- UDP announcements (src/discovery.c), and runs sessions over TCP in which it decides, for each request
-- to transmit, whether the band and the antenna are allowed (src/flex.c, src/policy.c). src/main.c
-- restarts sessions, with a growing delay (src/retry.c).
--
-- Files:
--   Common    names shared by all modules, Boolean tests, lists.
--   CString   C strings as lists of bytes without the NUL, and the string functions of the C library
--             that the program calls; CString/Numbers has strtoul and %u, and CString/Printed is about
--             the two together.
--   Fields    the loop that field_value of src/flex.c and of src/discovery.c share, and its meaning on
--             the segments between spaces.
--   Floats    the interface for `double` and strtod.
--   Config    include/ag_config.h and ag_config_find_antenna of src/config.c.
--             Its children: Checks, Radio, Antennas and Load are the rest of src/config.c; Yields, Bands,
--             Selected, Listed, Granted, Keys, Valid and Permits prove what a loaded configuration obeys.
--   Json      the interface to cJSON.
--   Policy    src/policy.c; its children prove the band lookups and the decision.
--   Discovery src/discovery.c: parse_packet and matches_selector; Discovery/Wait has ag_discovery_wait,
--             Reads and Announcements prove parse_packet, Wait/Results and Wait/Ends the wait.
--   Retry     src/retry.c, on unsigned numbers of 32 bits.
--   Flex      src/flex.c: Connection (types, environment, effects), Buffer (extract_line, read_line),
--             Responses (parse_response and the response cache), Fields (field_value), Handlers
--             (set_interlock and the status handlers), Commands (send_all, send_command_once,
--             send_command), Run (initialize_session, remove_interlock, ag_flex_run_session).
--             Connect has connect_socket, over an environment of its own. Quiet, Ensures, Safety, Nesting,
--             Partial, Lines, Answers, Cache, Bounds, Create, Waiting, Protocol and Connect/Closing are
--             proofs; Protocol states the protocol between a session and the radio.
--   Main      src/main.c: the interruptible sleep, the options, print_config_summary and the loops; Whole
--             fills their environment with the sessions of Flex and the wait of Discovery. Options/Words
--             describes the command lines; Options/Classes, Options/Meaning, Delays, Backoff and Radios
--             are proofs.
--   Tests     concrete interfaces, runs, and instances of the theorems.
--
-- A function of src/flex.c is a function of the same name in the state monad Flex over a Session: the
-- connection, the state of the outside world, and the list of frames handed to send_all, which no code
-- reads. Sockets, the clock and the stop flag are operations of an environment that the theorems leave
-- open, and so is the connection that a session starts with. An int that is 0 or -1 is a Status, the
-- int of read_line a ReadResult, an index or pointer an Option. Loops that the environment can prolong take fuel, and a
-- loop without fuel left ends as `exhausted` with the session as it is, so that a theorem about all
-- sessions is also about the prefix that the fuel allows. send_command calls itself through
-- handle_status and set_interlock, and the parameter `depth` bounds that; within a command
-- set_interlock sends nothing, so 1 is enough.
--
-- A packet is the list of the bytes that recv returned. A read behind its end is a fault of the model,
-- which the theorems exclude. ag_discovery_wait runs over an environment in the same way, and counts the
-- open sockets.
--
-- A function of src/config.c that fails returns the ConfigError of its message in place of -1. A JSON
-- node is a value of an abstract type, and each call of cJSON is an operation on it.
--
-- main keeps its variables in a State, which also lists the delays and the sessions that it started.
-- Its loops take a bound on their rounds, and sleep_interruptibly one on the interruptions of a sleep.
--
-- Not modelled: log lines (ag_log, log_decision) and the reads of the stop flag that only guard a log
-- line; print_usage; the configuration that a failed ag_config_load leaves behind; cJSON, which is
-- another project's library. `unsigned long` has 64 bits in the model, while on the linux-armv7 release
-- it has 32, where strtoul refuses a response code from 2 ^ 32 on.
pub mod Common
pub mod CString
pub mod Fields
pub mod Floats
pub mod Json
pub mod Config
pub mod Policy
pub mod Discovery
pub mod Retry
pub mod Flex
pub mod Main
pub mod Tests
