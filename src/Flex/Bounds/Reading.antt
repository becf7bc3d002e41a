-- ===== src/Flex/Bounds/Reading.antt =====
-- read_line, send_all and the response cache keep the bounds of the connection.
use antenna_guardian_pi_lite.Common.{
  ℕ, zero, suc, ◌+◌, ◌-◌, ◌≤◌, ◌<◌, Bool, true, false, ◌&&◌, List, [], ◌∷◌, ◌++◌, Option, none,
  some, ◌≡◌, refl, ap, ◌∙◌, inl, inr, arith, Bool-cases, ◌==◌, if◌then◌else◌, length, drop,
  length-drop, length-append, length-take_le, All,
}
use antenna_guardian_pi_lite.CString.{Text, strchr}
use antenna_guardian_pi_lite.Flex.Connection.{
  SavedResponse, Connection, Env, Session, Flex, exec, line_buffer, response_body_size,
  poll_interrupted, poll_failed, poll_timeout, poll_ready, RecvResult, recv_interrupted,
  recv_failed, received, send_interrupted, send_failed, sent,
}
use antenna_guardian_pi_lite.Flex.Buffer.{
  ReadResult, read_failed, nothing, got_line, extract_at, extract_line, extract, after_recv,
  receive, poll_loop, after_extract, read_line,
}
use antenna_guardian_pi_lite.Flex.Responses.{Response, save_response, take_response}
use antenna_guardian_pi_lite.Flex.Commands.{send_all, may_go_on, take_saved}
use antenna_guardian_pi_lite.Flex.Bounds.{
  IsBounded, Bounded, Keeps, bind-Keeps, pure-Keeps, give_up-Keeps, get-Keeps, call-Keeps, if-Keeps,
}

length-strchr : (b : ℕ) (s : Text) {e : Text} → strchr b s ≡ some e → length e ≤ length s
unfolding strchr
length-strchr b [] h = cc
length-strchr b (c ∷ s) {e} h = ground (arith, length-strchr b s {e = e})

-- A shorter buffer.
with_buffer :
    {buffer id antenna : Text} {slots : List SavedResponse} (rest : Text)
    → length rest ≤ line_buffer
    → IsBounded buffer id antenna slots
    → IsBounded rest id antenna slots
with_buffer rest h b = record {
  buffer_fits = h;
  id_fits = b.id_fits;
  antenna_fits = b.antenna_fits;
  slots_are = b.slots_are;
  bodies_fit = b.bodies_fit;
}

extract_line-Bounded :
    {D : Type 0} (line_size : ℕ) (c : Connection D)
    → Bounded c
    → Bounded (extract_line line_size c).1
unfolding extract_line
extract_line-Bounded {D} line_size c b = go (strchr b'\n' c.receive_buffer) refl
  where
    sized :
        (big : Bool) (content rest : Text)
        → length rest ≤ line_buffer
        → Bounded
            (if◌then◌else◌ {A = ReadResult × Connection D} big
              (got_line content, record c { receive_buffer = rest })
              (read_failed, c)).1
    sized true content rest h = with_buffer rest h b
    sized false content rest h = b

    go :
        (found : Option Text)
        → strchr b'\n' c.receive_buffer ≡ found
        → Bounded (extract_at line_size found c).1
    go none e = b
    go (some newline) e = sized _ _ _ (
        omega (arith, b.buffer_fits, length-drop 1 newline, length-strchr b'\n' c.receive_buffer e))

module _ {D S : Type 0} where
  extract-Keeps : (line_size : ℕ) → Keeps (extract {D = D} {S = S} line_size)
  unfolding extract exec
  extract-Keeps line_size = record { kept = λ s b. extract_line-Bounded line_size s.conn b }

module _ {D S : Type 0} (env : Env S) where
  after_recv-Bounded :
      (line_size : ℕ) (r : RecvResult) (s : Session D S)
      → Bounded s.conn
      → ((bytes : Text)
          → r ≡ received bytes
          → length s.conn.receive_buffer + length bytes ≤ line_buffer)
      → Bounded (after_recv line_size r s).1.conn
  unfolding after_recv exec
  after_recv-Bounded line_size recv_interrupted s b h = b
  after_recv-Bounded line_size recv_failed s b h = b
  after_recv-Bounded line_size (received bytes) s b h =
      let joined = length-append s.conn.receive_buffer bytes in
      (extract-Keeps line_size).kept
        (record s { conn = record s.conn { receive_buffer = s.conn.receive_buffer ++ bytes } })
        (with_buffer (s.conn.receive_buffer ++ bytes) (omega (arith, joined, h bytes refl)) b)

  either-Bounded :
      {A : Type 0} (b : Bool) (m n : Flex D S A) (s : Session D S)
      → Bounded (m s).1.conn
      → Bounded (n s).1.conn
      → Bounded ((if b then m else n) s).1.conn
  either-Bounded true m n s hm hn = hm
  either-Bounded false m n s hm hn = hn

  receive-Keeps : (line_size : ℕ) → Keeps (receive {D = D} env line_size)
  unfolding receive exec
  receive-Keeps line_size = record {
    kept = λ s b.
        let room = line_buffer - length s.conn.receive_buffer in
        either-Bounded (length s.conn.receive_buffer == line_buffer) _ _ s b (
          after_recv-Bounded line_size (env.recv room s.world).0
            (record s { world = (env.recv room s.world).1 }) b
            (λ bytes e. omega (arith, env.recv_fits room s.world bytes e, b.buffer_fits)));
  }

  poll_loop-Keeps :
      (fuel line_size timeout_ms : ℕ) → Keeps (poll_loop {D = D} env fuel line_size timeout_ms)
  unfolding poll_loop
  poll_loop-Keeps zero line_size timeout_ms = give_up-Keeps _
  poll_loop-Keeps (suc fuel) line_size timeout_ms = bind-Keeps (call-Keeps _) (elim [
    | poll_interrupted ↦ pure-Keeps _
    | poll_failed ↦ pure-Keeps _
    | poll_timeout ↦ pure-Keeps _
    | poll_ready broken readable ↦
        if-Keeps broken (pure-Keeps _)
          (if-Keeps readable (receive-Keeps line_size) (poll_loop-Keeps fuel line_size timeout_ms))
  ])

  after_extract-Keeps :
      (fuel line_size timeout_ms : ℕ) (r : ReadResult)
      → Keeps (after_extract {D = D} env fuel line_size timeout_ms r)
  unfolding after_extract
  after_extract-Keeps fuel line_size timeout_ms read_failed = pure-Keeps _
  after_extract-Keeps fuel line_size timeout_ms (got_line line) = pure-Keeps _
  after_extract-Keeps fuel line_size timeout_ms nothing = bind-Keeps get-Keeps (λ c.
      if-Keeps (length c.receive_buffer == line_buffer) (pure-Keeps _)
        (poll_loop-Keeps fuel line_size timeout_ms))

  pub read_line-Keeps :
      (fuel line_size timeout_ms : ℕ) → Keeps (read_line {D = D} env fuel line_size timeout_ms)
  unfolding read_line
  read_line-Keeps fuel line_size timeout_ms =
      bind-Keeps (extract-Keeps line_size) (after_extract-Keeps fuel line_size timeout_ms)

  pub send_all-Keeps : (fuel : ℕ) (bytes : Text) → Keeps (send_all {D = D} env fuel bytes)
  unfolding send_all
  send_all-Keeps zero [] = pure-Keeps _
  send_all-Keeps zero (b ∷ bytes) = give_up-Keeps _
  send_all-Keeps (suc fuel) [] = pure-Keeps _
  send_all-Keeps (suc fuel) (b ∷ bytes) = bind-Keeps (call-Keeps _) (elim [
    | send_interrupted ↦ send_all-Keeps fuel (b ∷ bytes)
    | send_failed ↦ pure-Keeps _
    | sent n ↦ if-Keeps (n == 0) (pure-Keeps _) (send_all-Keeps fuel (drop n (b ∷ bytes)))
  ])

  pub may_go_on-Keeps : (cleanup : Bool) → Keeps (may_go_on {D = D} env cleanup)
  unfolding may_go_on
  may_go_on-Keeps cleanup =
      if-Keeps cleanup (pure-Keeps _) (bind-Keeps (call-Keeps _) (λ stop. pure-Keeps _))

-- The cache after a response was taken or saved.
take_response-fits :
    (sequence : ℕ) (slots : List SavedResponse)
    → (length (take_response sequence slots).1 ≡ length slots)
      × (All (λ slot. length slot.body < response_body_size) slots
          → All (λ slot. length slot.body < response_body_size) (take_response sequence slots).1)
unfolding take_response
take_response-fits sequence [] = (refl, (λ h. h))
take_response-fits sequence (slot ∷ slots) =
    let (same, fit) = take_response-fits sequence slots in
    elim (Bool-cases (slot.used && slot.sequence == sequence)) [
      | inl here ↦ rw (take_response, here) (refl, (λ h. h))
      | inr later ↦ rw (take_response, later) (ap suc same, (λ h. (h.0, fit h.1)))
    ]

pub save_response-fits :
    (r : Response) (slots : List SavedResponse)
    → (length (save_response r slots) ≡ length slots)
      × (All (λ slot. length slot.body < response_body_size) slots
          → All (λ slot. length slot.body < response_body_size) (save_response r slots))
unfolding save_response
save_response-fits r [] = (refl, (λ h. h))
save_response-fits r (slot ∷ slots) =
    let (same, fit) = save_response-fits r slots in
    elim (Bool-cases slot.used) [
      | inl busy ↦ rw (save_response, busy) (ap suc same, (λ h. (h.0, fit h.1)))
      | inr free ↦
          rw (save_response, free) (refl, (λ h. (omega (arith, length-take_le 255 r.body), h.1)))
    ]

pub with_slots :
    {buffer id antenna : Text} {slots : List SavedResponse} (after : List SavedResponse)
    → (length after ≡ length slots)
      × (All (λ slot. length slot.body < response_body_size) slots
          → All (λ slot. length slot.body < response_body_size) after)
    → IsBounded buffer id antenna slots
    → IsBounded buffer id antenna after
with_slots after h b = record {
  buffer_fits = b.buffer_fits;
  id_fits = b.id_fits;
  antenna_fits = b.antenna_fits;
  slots_are = h.0 ∙ b.slots_are;
  bodies_fit = h.1 b.bodies_fit;
}

module _ {D S : Type 0} (env : Env S) where
  pub take_saved-Keeps : (sequence : ℕ) → Keeps (take_saved {D = D} env sequence)
  unfolding take_saved exec
  take_saved-Keeps sequence = record {
    kept = λ s b.
        with_slots (take_response sequence s.conn.saved_responses).1
          (take_response-fits sequence s.conn.saved_responses) b;
  }
