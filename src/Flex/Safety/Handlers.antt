-- ===== src/Flex/Safety/Handlers.antt =====
-- The handlers keep the invariants of Flex/Safety. Within a command they send nothing, and leave an
-- update behind; between commands they send only what may be sent.
use antenna_guardian_pi_lite.Common.{
  Bool, true, false, not, ◌&&◌, ◌||◌, List, Option, none, some, ◌≡◌, refl, sym, ap, ◌∙◌, arith,
  if◌then◌else◌, drop,
}
use antenna_guardian_pi_lite.CString.{Text, codes, starts_with, strchr, strcmp_eq, is_empty}
use antenna_guardian_pi_lite.Config.{Config}
use antenna_guardian_pi_lite.Floats.{Floats}
use antenna_guardian_pi_lite.Flex.Connection.{
  Connection, Sent, Session, Flex, exec, pure, Status, success,
}
use antenna_guardian_pi_lite.Flex.Ensures.{Post, if-Post}
use antenna_guardian_pi_lite.Flex.Fields.{field_value}
use antenna_guardian_pi_lite.Flex.Handlers.{
  Sender, set_interlock, interlock_command, evaluate_context, update_frequency, update_antenna,
  handle_transmit, interlock_state, handle_interlock, handle_payload, handle_status,
}
use antenna_guardian_pi_lite.Flex.Quiet.{Core, core}
use antenna_guardian_pi_lite.Flex.Safety.{context_allows, MayBeSent, Base, Busy, Authorised}

-- The command of set_interlock, in protect mode.
pub interlock_command-MayBeSent :
    {D : Type 0} ⦃fp : Floats D⦄ (ready : Bool) (id : Text) (c : Connection D)
    → (ready ≡ true → context_allows c ≡ true)
    → c.observe_only ≡ false
    → MayBeSent (interlock_command ready id) c
unfolding interlock_command starts_with
interlock_command-MayBeSent true id c h o = (λ e. h refl, λ e. o)
interlock_command-MayBeSent false id c h o = (λ e. cc, λ e. o)

-- The connection after both updates of handle_transmit.
abbrev pub updated : {D : Type 0} ⦃fp : Floats D⦄ → Text → Connection D → Connection D
updated payload c =
    update_antenna (field_value payload (codes "tx_antenna") 128)
      (update_frequency (field_value payload (codes "freq") 128) c)

-- All of a core but the frequency and the antenna.
abbrev pub Rest : Type 0
Rest = Config × Text × Bool × Bool × Bool × Bool

abbrev pub rest : {D : Type 0} → Connection D → Rest
rest c = (
  c.config, c.interlock_id, c.observe_only, c.command_in_progress, c.interlock_update_pending,
  c.pending_interlock_ready,
)

pub rest-updated :
    {D : Type 0} ⦃fp : Floats D⦄ (payload : Text) (c : Connection D)
    → rest (updated payload c) ≡ rest c
unfolding update_antenna update_frequency
rest-updated payload c = ground arith

pub updated-in_progress :
    {D : Type 0} ⦃fp : Floats D⦄ (payload : Text) (c : Connection D)
    → (updated payload c).command_in_progress ≡ c.command_in_progress
updated-in_progress payload c = ap (λ r. r.3) (rest-updated payload c)

pub updated-pending :
    {D : Type 0} ⦃fp : Floats D⦄ (payload : Text) (c : Connection D)
    → (updated payload c).interlock_update_pending ≡ c.interlock_update_pending
updated-pending payload c = ap (λ r. r.4) (rest-updated payload c)

pub updated-Base :
    {D S : Type 0} ⦃fp : Floats D⦄ {k : Config} {o : Bool} {i : Text} (payload : Text)
    (s : Session D S)
    → Base k o i (core s)
    → Base k o i (core (record s { conn = updated payload s.conn }))
updated-Base payload s b =
    let e = rest-updated payload s.conn in
    record {
      config_is = ap (λ r. r.0) e ∙ b.config_is;
      observe_is = ap (λ r. r.2) e ∙ b.observe_is;
      id_is = ap (λ r. r.1) e ∙ b.id_is;
      authorised = b.authorised;
      protects = λ p. b.protects (sym (updated-pending payload s.conn) ∙ p);
      has_id = λ p. b.has_id (sym (updated-pending payload s.conn) ∙ p);
    }

module _ {D S : Type 0} ⦃fp : Floats D⦄ (send : Sender D S) {k : Config} {o : Bool} {i : Text} where
  -- What is pending shows that commands may be sent.
  not_pending :
      {c : Core D} {t : List (Sent D)}
      → Base k o i (c, t)
      → (c.observe_only || is_empty c.interlock_id) ≡ true
      → c.interlock_update_pending ≡ false
  not_pending b off = ground (arith, b.observe_is, b.id_is, b.protects, b.has_id)

  pub set_interlock-Busy :
      (ready : Bool) (s : Session D S)
      → Base k o i (core s)
      → s.conn.command_in_progress ≡ true
      → (ready ≡ true → context_allows s.conn ≡ true)
      → Post Authorised (λ r t. Busy k o i (core t)) (set_interlock send ready s)
  unfolding set_interlock exec
  set_interlock-Busy ready s b p h =
      if-Post _ _ (s.conn.observe_only || is_empty s.conn.interlock_id) _ _ s
        (λ off.
          let free : s.conn.interlock_update_pending ≡ false = not_pending b off in
          record { base = b; deferral = λ e. absurd (ground (arith, e, free)); in_progress = p })
        (λ on.
          if-Post _ _ s.conn.command_in_progress _ _ s
            (λ q. record { base = ground (arith, on); deferral = λ e r. h r; in_progress = p })
            (λ q. cc))

  pub handle_transmit-Busy :
      (payload : Text) (s : Session D S)
      → Base k o i (core s)
      → s.conn.command_in_progress ≡ true
      → Post Authorised (λ r t. Busy k o i (core t)) (handle_transmit send payload s)
  unfolding handle_transmit exec evaluate_context
  handle_transmit-Busy payload s b p =
      let c = updated payload s.conn in
      let t : Session D S = record s { conn = c } in
      let b' : Base k o i (core t) = updated-Base payload s b in
      if-Post _ _ (not (context_allows c) && not (is_empty c.interlock_id)) _ _ t
        (λ blocked.
          set_interlock-Busy false t b' (updated-in_progress payload s.conn ∙ p) (λ e. cc))
        (λ fine. record {
          base = b';
          deferral = λ e r. ground (arith, fine, b'.has_id e, b'.id_is);
          in_progress = updated-in_progress payload s.conn ∙ p;
        })

  pub interlock_state-Busy :
      (state : Text) (s : Session D S)
      → Busy k o i (core s)
      → Post Authorised (λ r t. Busy k o i (core t)) (interlock_state send state s)
  unfolding interlock_state exec evaluate_context
  interlock_state-Busy state s b =
      if-Post _ _ (strcmp_eq state (codes "PTT_REQUESTED")) _ _ s
        (λ ptt. set_interlock-Busy (context_allows s.conn) s b.base b.in_progress (λ e. e))
        (λ _.
          if-Post _ _ (strcmp_eq state (codes "UNKEY_REQUESTED")) _ _ s (λ unkey. off)
            (λ _.
              if-Post _ _ (strcmp_eq state (codes "TRANSMITTING")) _ _ s
                (λ on. if-Post _ _ (not (context_allows s.conn)) _ _ s (λ blocked. off) (λ fine. b))
                (λ _. b)))
    where
      off :
          Post Authorised
            (λ r t. Busy k o i (core t))
            ((if s.conn.observe_only then pure success else set_interlock send false) s)
      off =
          if-Post _ _ s.conn.observe_only _ _ s (λ observing. b)
            (λ _. set_interlock-Busy false s b.base b.in_progress (λ e. cc))

  handle_payload-Busy :
      (payload : Text) (s : Session D S)
      → Busy k o i (core s)
      → Post Authorised (λ r t. Busy k o i (core t)) (handle_payload send payload s)
  unfolding handle_payload handle_interlock exec
  handle_payload-Busy payload s b =
      if-Post _ _ (is_empty payload) _ _ s (λ _. b)
        (λ _.
          if-Post _ _ (starts_with (codes "transmit ") payload) _ _ s
            (λ _. handle_transmit-Busy (drop 9 payload) s b.base b.in_progress)
            (λ _.
              if-Post _ _ (starts_with (codes "interlock ") payload) _ _ s
                (λ _. in_state (field_value (drop 10 payload) (codes "state") 64)) (λ _. b)))
    where
      in_state :
          (found : Option Text)
          → Post Authorised
              (λ r t. Busy k o i (core t))
              (let m : Flex D S Status = elim found [
                | none ↦ pure success
                | some state ↦ interlock_state send state
              ] in
                m s)
      in_state none = b
      in_state (some state) = interlock_state-Busy state s b

  pub handle_status-Busy :
      (line : Text) (s : Session D S)
      → Busy k o i (core s)
      → Post Authorised (λ r t. Busy k o i (core t)) (handle_status send line s)
  unfolding handle_status exec
  handle_status-Busy line s b = at_bar (strchr b'|' line)
    where
      at_bar :
          (found : Option Text)
          → Post Authorised
              (λ r t. Busy k o i (core t))
              (let m : Flex D S Status = elim found [
                | none ↦ pure success
                | some separator ↦ handle_payload send (drop 1 separator)
              ] in
                m s)
      at_bar none = b
      at_bar (some separator) = handle_payload-Busy (drop 1 separator) s b
