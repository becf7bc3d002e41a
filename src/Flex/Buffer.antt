-- ===== src/Flex/Buffer.antt =====
-- extract_line and read_line of src/flex.c: lines out of the receive buffer.
use antenna_guardian_pi_lite.Common.{
  ℕ, zero, suc, ◌+◌, ◌-◌, [], ◌∷◌, ◌++◌, Option, none, some, leb, ◌==◌, if◌then◌else◌, length, drop,
}
use antenna_guardian_pi_lite.CString.{Text, strlen, before, strchr}
use antenna_guardian_pi_lite.Flex.Connection.{
  Connection, Env, Flex, ◌>>=◌, ◌>>◌, pure, give_up, get, modify, call, line_buffer,
  poll_interrupted, poll_failed, poll_timeout, poll_ready, RecvResult, recv_interrupted,
  recv_failed, received,
}

-- The int that both functions return: -1, 0, or 1 with the line.
pub data ReadResult : Type 0 where
  read_failed nothing : ReadResult
  got_line : Text → ReadResult

-- A '\r' at the end is not part of the line.
unfoldable pub chop_cr : Text → Text
chop_cr [] = []
chop_cr (c ∷ []) = if c == b'\r' then [] else c ∷ []
chop_cr (c ∷ d ∷ cs) = c ∷ chop_cr (d ∷ cs)

-- The part of extract_line behind memchr, which found the bytes from the newline on. The line is
-- read as a C string, so it ends at its first NUL.
unfoldable pub extract_at :
    {D : Type 0} → ℕ → Option Text → Connection D → ReadResult × Connection D
unfolding chop_cr
extract_at line_size none c = (nothing, c)
extract_at line_size (some newline) c =
    let content = chop_cr (before b'\n' c.receive_buffer) in
    if leb (strlen content + 1) line_size
    then (got_line (before 0 content), record c { receive_buffer = drop 1 newline })
    else (read_failed, c)

unfoldable pub extract_line : {D : Type 0} → ℕ → Connection D → ReadResult × Connection D
unfolding extract_at
extract_line line_size c = extract_at line_size (strchr b'\n' c.receive_buffer) c

module _ {D S : Type 0} where
  unfoldable pub extract : ℕ → Flex D S ReadResult
  extract line_size = do
    c ← get
    let (result, c') = extract_line line_size c
    modify (λ _. c')
    pure result

  unfoldable pub after_recv : ℕ → RecvResult → Flex D S ReadResult
  unfolding extract
  after_recv line_size recv_interrupted = pure nothing
  after_recv line_size recv_failed = pure read_failed
  after_recv line_size (received bytes) = do
    modify (λ c. record c { receive_buffer = c.receive_buffer ++ bytes })
    extract line_size

module _ {D S : Type 0} (env : Env S) where
  unfoldable pub receive : ℕ → Flex D S ReadResult
  unfolding after_recv
  receive line_size = do
    c ← get
    if length c.receive_buffer == line_buffer then pure read_failed else (do
      r ← call (env.recv (line_buffer - length c.receive_buffer))
      after_recv line_size r)

  -- The loop around poll(); revents that say nothing are asked for again.
  unfoldable pub poll_loop : ℕ → ℕ → ℕ → Flex D S ReadResult
  unfolding receive
  poll_loop zero line_size timeout_ms = give_up
  poll_loop (suc fuel) line_size timeout_ms = do
    r ← call (env.poll timeout_ms)
    elim r [
      | poll_interrupted ↦ pure nothing
      | poll_failed ↦ pure read_failed
      | poll_timeout ↦ pure nothing
      | poll_ready broken readable ↦
          let again = poll_loop fuel line_size timeout_ms in
          if broken then pure read_failed else if readable then receive line_size else again
    ]

  -- What read_line does with the result of the first extract_line.
  unfoldable pub after_extract : ℕ → ℕ → ℕ → ReadResult → Flex D S ReadResult
  unfolding poll_loop
  after_extract fuel line_size timeout_ms read_failed = pure read_failed
  after_extract fuel line_size timeout_ms (got_line line) = pure (got_line line)
  after_extract fuel line_size timeout_ms nothing = do
    c ← get
    if length c.receive_buffer == line_buffer
        then pure read_failed
        else poll_loop fuel line_size timeout_ms

  unfoldable pub read_line : ℕ → ℕ → ℕ → Flex D S ReadResult
  unfolding extract after_extract
  read_line fuel line_size timeout_ms = do
    extracted ← extract line_size
    after_extract fuel line_size timeout_ms extracted
