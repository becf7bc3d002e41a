-- ===== src/Flex/Nesting.antt =====
-- Computations that agree while a command is in progress: the handlers then defer what they would
-- send, so it does not matter what the nested send_command would do.
pub mod Commands
use antenna_guardian_pi_lite.Common.{
  Bool, true, false, Option, none, some, List, ◌∷◌, ◌≡◌, refl, sym, inl, inr, Bool-cases, ap, ◌∙◌,
  if◌then◌else◌, arith, drop, not, ◌&&◌, ◌||◌, ltb,
}
use antenna_guardian_pi_lite.CString.{
  Text, codes, strchr, strcmp_eq, strcasecmp_eq, starts_with, is_empty, strlen,
}
use antenna_guardian_pi_lite.Config.{max_antenna_id}
use antenna_guardian_pi_lite.Floats.{Floats}
use antenna_guardian_pi_lite.Flex.Connection.{
  Connection, Session, Outcome, returned, exhausted, Flex, continue_with, ◌>>=◌, pure, get, modify,
  call, push_trace, exec, Status, success,
}
use antenna_guardian_pi_lite.Flex.Quiet.{Quiet, core, pure-Quiet, get-Quiet}
use antenna_guardian_pi_lite.Flex.Fields.{field_value}
use antenna_guardian_pi_lite.Flex.Handlers.{
  Sender, set_interlock, evaluate_context, update_frequency, update_antenna, handle_transmit,
  interlock_state, handle_interlock, handle_payload, handle_status,
}

module _ {D S : Type 0} where
  abbrev pub IsBusy : Session D S → Type 0
  IsBusy s = s.conn.command_in_progress ≡ true

  -- From every state in which a command is in progress, both end alike, with it still in progress.
  pub record Agrees {A : Type 0} (m n : Flex D S A) : Type 0 where
    pub same : (s : Session D S) → IsBusy s → m s ≡ n s
    pub busy : (s : Session D S) → IsBusy s → IsBusy (m s).1

module _ {D S A B : Type 0} {f g : A → Flex D S B} where
  continue_with-same :
      (x : Outcome A × Session D S)
      → IsBusy x.1
      → ((a : A) → Agrees (f a) (g a))
      → continue_with x f ≡ continue_with x g
  unfolding continue_with
  continue_with-same (returned a, s) p h = (h a).same s p
  continue_with-same (exhausted, s) p h = refl

  continue_with-IsBusy :
      (x : Outcome A × Session D S)
      → IsBusy x.1
      → ((a : A) → Agrees (f a) (g a))
      → IsBusy (continue_with x f).1
  unfolding continue_with
  continue_with-IsBusy (returned a, s) p h = (h a).busy s p
  continue_with-IsBusy (exhausted, s) p h = p

  pub bind-Agrees :
      {m n : Flex D S A} → Agrees m n → ((a : A) → Agrees (f a) (g a)) → Agrees (m >>= f) (n >>= g)
  unfolding ◌>>=◌
  bind-Agrees {m} {n} e h = record {
    same =
        λ s p. continue_with-same (m s) (e.busy s p) h ∙ ap (λ x. continue_with x g) (e.same s p);
    busy = λ s p. continue_with-IsBusy (m s) (e.busy s p) h;
  }

module _ {D S : Type 0} where
  pub Quiet-Agrees : {A : Type 0} {m : Flex D S A} → Quiet m → Agrees m m
  Quiet-Agrees q = record {
    same = λ s p. refl;
    busy = λ s p. ap (λ c. c.0.command_in_progress) (q.kept s) ∙ p;
  }

  pub modify-Agrees :
      (f : Connection D → Connection D)
      → ((c : Connection D) → (f c).command_in_progress ≡ c.command_in_progress)
      → Agrees {D = D} {S = S} (modify f) (modify f)
  unfolding modify
  modify-Agrees f h = record { same = λ s p. refl; busy = λ s p. h s.conn ∙ p }

  pub push_trace-Agrees :
      (command frame : Text)
      → Agrees {D = D} {S = S} (push_trace command frame) (push_trace command frame)
  unfolding push_trace
  push_trace-Agrees command frame = record { same = λ s p. refl; busy = λ s p. p }

  pub if-Agrees :
      {A : Type 0} (b : Bool) {m n m' n' : Flex D S A}
      → Agrees m m'
      → Agrees n n'
      → Agrees (if b then m else n) (if b then m' else n')
  if-Agrees true h k = h
  if-Agrees false h k = k

  pub option-Agrees :
      {X A : Type 0} (found : Option X) {m n : Flex D S A} {f g : X → Flex D S A}
      → Agrees m n
      → ((x : X) → Agrees (f x) (g x))
      → Agrees (elim found [ none ↦ m | some x ↦ f x ]) (elim found [ none ↦ n | some x ↦ g x ])
  option-Agrees none h k = h
  option-Agrees (some x) h k = k x

update_frequency-command_in_progress :
    {D : Type 0} ⦃fp : Floats D⦄ (value : Option Text) (c : Connection D)
    → (update_frequency value c).command_in_progress ≡ c.command_in_progress
unfolding update_frequency
update_frequency-command_in_progress none c = refl
update_frequency-command_in_progress (some value) c = refl

update_antenna-command_in_progress :
    {D : Type 0} (value : Option Text) (c : Connection D)
    → (update_antenna value c).command_in_progress ≡ c.command_in_progress
unfolding update_antenna
update_antenna-command_in_progress none c = refl
update_antenna-command_in_progress (some value) c = ground arith

module _ {D S : Type 0} ⦃fp : Floats D⦄ (a b : Sender D S) where
  set_interlock-same :
      (ready : Bool) (s : Session D S)
      → IsBusy s
      → set_interlock a ready s ≡ set_interlock b ready s
  unfolding set_interlock exec
  set_interlock-same ready s p = rw p refl

  set_interlock-IsBusy :
      (ready : Bool) (s : Session D S) → IsBusy s → IsBusy (set_interlock a ready s).1
  unfolding set_interlock exec
  set_interlock-IsBusy ready s p =
      elim (Bool-cases (s.conn.observe_only || is_empty s.conn.interlock_id)) [
        | inl off ↦ rw off p
        | inr on ↦ rw (on, p) refl
      ]

  set_interlock-Agrees : (ready : Bool) → Agrees (set_interlock a ready) (set_interlock b ready)
  set_interlock-Agrees ready = record {
    same = set_interlock-same ready;
    busy = set_interlock-IsBusy ready;
  }

  handle_transmit-Agrees :
      (payload : Text) → Agrees (handle_transmit a payload) (handle_transmit b payload)
  unfolding handle_transmit
  handle_transmit-Agrees payload =
      bind-Agrees (modify-Agrees _ (update_frequency-command_in_progress _)) (λ u.
        bind-Agrees (modify-Agrees _ (update_antenna-command_in_progress _)) (λ u'.
          bind-Agrees (Quiet-Agrees get-Quiet)
            (λ c. if-Agrees _ (set_interlock-Agrees false) (Quiet-Agrees (pure-Quiet success)))))

  off-Agrees :
      (observing : Bool)
      → Agrees {D = D} {S = S}
          (if observing then pure success else set_interlock a false)
          (if observing then pure success else set_interlock b false)
  off-Agrees observing =
      if-Agrees observing (Quiet-Agrees (pure-Quiet success)) (set_interlock-Agrees false)

  interlock_state-Agrees :
      (state : Text) → Agrees (interlock_state a state) (interlock_state b state)
  unfolding interlock_state
  interlock_state-Agrees state = bind-Agrees (Quiet-Agrees get-Quiet) (λ c.
      if-Agrees (strcmp_eq state (codes "PTT_REQUESTED"))
        (set_interlock-Agrees (evaluate_context c).allowed)
        (if-Agrees (strcmp_eq state (codes "UNKEY_REQUESTED")) (off-Agrees c.observe_only) (
          if-Agrees (strcmp_eq state (codes "TRANSMITTING"))
            (if-Agrees (not (evaluate_context c).allowed) (off-Agrees c.observe_only)
              (Quiet-Agrees (pure-Quiet success)))
            (Quiet-Agrees (pure-Quiet success)))))

  handle_interlock-Agrees :
      (payload : Text) → Agrees (handle_interlock a payload) (handle_interlock b payload)
  unfolding handle_interlock
  handle_interlock-Agrees payload =
      option-Agrees (field_value payload (codes "state") 64) (Quiet-Agrees (pure-Quiet success))
        interlock_state-Agrees

  handle_payload-Agrees :
      (payload : Text) → Agrees (handle_payload a payload) (handle_payload b payload)
  unfolding handle_payload
  handle_payload-Agrees payload =
      let done = Quiet-Agrees (pure-Quiet success) in
      if-Agrees _ done (
        if-Agrees _ (handle_transmit-Agrees _)
          (if-Agrees _ (handle_interlock-Agrees (drop 10 payload)) done))

  -- The handlers do the same with both senders while a command is in progress.
  pub handle_status-Agrees : (line : Text) → Agrees (handle_status a line) (handle_status b line)
  unfolding handle_status
  handle_status-Agrees line =
      option-Agrees (strchr b'|' line) (Quiet-Agrees (pure-Quiet success))
        (λ separator. handle_payload-Agrees (drop 1 separator))
