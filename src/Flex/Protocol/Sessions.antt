-- ===== src/Flex/Protocol/Sessions.antt =====
-- The protocol over the subscriptions and the adoption of an interlock in initialize_session of src/flex.c.
use antenna_guardian_pi_lite.Common.{
  ℕ, Bool, true, false, ◌||◌, [], Option, none, some, ◌≡◌, refl, inl, inr, arith, leb,
}
use antenna_guardian_pi_lite.CString.{Text, is_empty, strlen, before}
use antenna_guardian_pi_lite.Floats.{Floats}
use antenna_guardian_pi_lite.Flex.Commands.{send_plain}
use antenna_guardian_pi_lite.Flex.Connection.{
  Env, Session, Outcome, returned, exhausted, Flex, Status, success, failure, interlock_id_size,
}
use antenna_guardian_pi_lite.Flex.Ensures.{
  Post, Ensures, bind-Ensures, pure-Ensures, modify-Ensures, if-Ensures,
}
use antenna_guardian_pi_lite.Flex.Handlers.{set_interlock, interlock_command}
use antenna_guardian_pi_lite.Flex.Quiet.{core}
use antenna_guardian_pi_lite.Flex.Run.{and_then, subscribe, adopt_interlock, remove_command}
use antenna_guardian_pi_lite.Flex.Protocol.{
  Phase, subscribing, created, adopted, guarding, removed, Says, subscribes, blocks, updates_ready,
  updates_not_ready, removes_early, removes, is_named, subscriptions, Talk, Spoken,
}
use antenna_guardian_pi_lite.Flex.Protocol.Sending.{Open, SaidOr}
use antenna_guardian_pi_lite.Flex.Protocol.Commanding.{send_plain-said, set_interlock-said}

-- Between commands, in a phase in which the interlock may be removed, if there is one.
pub record Halts {D S : Type 0} (o : Bool) (s : Session D S) : Type 0 where
  pub id : Text
  pub phase : Phase
  pub talk : Talk o id false phase (core s)
  pub may_remove : is_empty id ≡ false → Says o phase (remove_command id) (removed id)

-- Between commands, in a phase in which the interlock may also be updated.
pub record Goes {D S : Type 0} (o : Bool) (s : Session D S) : Type 0 where
  pub halts : Halts o s
  pub open_now : Open o halts.id halts.phase

-- The session goes on in R, or halts.
abbrev pub OrHalts : {D S : Type 0} → Bool → (Session D S → Type 0) → Status → Session D S → Type 0
OrHalts o R failure s = Halts o s
OrHalts o R success s = R s

pub unnamed : (o : Bool) (p : Phase) → Open o [] p
unnamed o p ready e = cc

guarded : (o : Bool) (id : Text) → Open o id (guarding id)
unfolding interlock_command
guarded o id true e = updates_ready
guarded o id false e = updates_not_ready

blocks_it : (o : Bool) (id : Text) → Says o (adopted id) (interlock_command false id) (guarding id)
unfolding interlock_command
blocks_it o id = blocks

module _ {D S : Type 0} {o : Bool} where
  pub unnamed-Halts : (p : Phase) (s : Session D S) → Talk o [] false p (core s) → Halts o s
  unnamed-Halts p s t = record { id = []; phase = p; talk = t; may_remove = λ e. cc }

  pub unnamed-Goes : (p : Phase) (s : Session D S) → Talk o [] false p (core s) → Goes o s
  unfolding unnamed-Halts
  unnamed-Goes p s t = record { halts = unnamed-Halts p s t; open_now = unnamed o p }

  adopted-Halts : (id : Text) (s : Session D S) → Talk o id false (adopted id) (core s) → Halts o s
  unfolding remove_command
  adopted-Halts id s t = record {
    id = id;
    phase = adopted id;
    talk = t;
    may_remove = λ e. removes_early;
  }

  guarding-Halts :
      (id : Text) (s : Session D S) → Talk o id false (guarding id) (core s) → Halts o s
  unfolding remove_command
  guarding-Halts id s t = record {
    id = id;
    phase = guarding id;
    talk = t;
    may_remove = λ e. removes;
  }

  guarding-Goes : (id : Text) (s : Session D S) → Talk o id false (guarding id) (core s) → Goes o s
  unfolding guarding-Halts
  guarding-Goes id s t = record { halts = guarding-Halts id s t; open_now = guarded o id }

  pub and_then-OrHalts :
      {P R : Session D S → Type 0} {a b : Flex D S Status} {Q : Session D S → Type 0}
      → Ensures (Spoken o) P a (OrHalts o R)
      → Ensures (Spoken o) R b (OrHalts o Q)
      → Ensures (Spoken o) P (and_then a b) (OrHalts o Q)
  unfolding and_then
  and_then-OrHalts ea eb =
      bind-Ensures ea (elim [ failure ↦ pure-Ensures failure (λ s h. h) | success ↦ eb ])

module _ {D S : Type 0} ⦃fp : Floats D⦄ (env : Env S) (depth fuel : ℕ) {o : Bool} where
  plain-OrHalts :
      {p q : Phase} {command : Text}
      → Says o p command q
      → Ensures {D = D}
          (Spoken o)
          (λ s. Talk o [] false p (core s))
          (send_plain env depth fuel command)
          (OrHalts o (λ s. Talk o [] false q (core s)))
  plain-OrHalts {p} {q} {command} next = record {
    holds = λ s t.
        halting (send_plain env depth fuel command s)
          ((send_plain-said env depth fuel next (unnamed o q)).holds s t);
  }
    where
      halting :
          (x : Outcome Status × Session D S)
          → Post (Spoken o) (SaidOr o [] p q) x
          → Post (Spoken o) (OrHalts o (λ s. Talk o [] false q (core s))) x
      halting (returned failure, s) (inl t) = unnamed-Halts p s t
      halting (returned failure, s) (inr t) = unnamed-Halts q s t
      halting (returned success, s) t = t
      halting (exhausted, s) t = t

  pub subscribe-OrHalts :
      Ensures {D = D}
        (Spoken o)
        (λ s. Talk o [] false (subscribing subscriptions) (core s))
        (subscribe env depth fuel)
        (OrHalts o (λ s. Talk o [] false (subscribing []) (core s)))
  unfolding subscribe
  subscribe-OrHalts = and_then-OrHalts (plain-OrHalts subscribes) (
      and_then-OrHalts (plain-OrHalts subscribes)
        (and_then-OrHalts (plain-OrHalts subscribes) (plain-OrHalts subscribes)))

  -- The first command for the new interlock is `not_ready`.
  block-OrHalts :
      (id : Text)
      → is_empty id ≡ false
      → o ≡ false
      → Ensures {D = D}
          (Spoken o)
          (λ s. Talk o id false (adopted id) (core s))
          (set_interlock (send_plain env depth fuel) false)
          (OrHalts o (Goes o))
  block-OrHalts id named protects = record {
    holds = λ s t. blocked (set_interlock (send_plain env depth fuel) false s) (
        set_interlock-said env depth fuel (guarded o id) false (blocks_it o id) s named protects t);
  }
    where
      blocked :
          (x : Outcome Status × Session D S)
          → Post (Spoken o) (SaidOr o id (adopted id) (guarding id)) x
          → Post (Spoken o) (OrHalts o (Goes o)) x
      blocked (returned failure, s) (inl t) = adopted-Halts id s t
      blocked (returned failure, s) (inr t) = guarding-Halts id s t
      blocked (returned success, s) t = guarding-Goes id s t
      blocked (exhausted, s) t = t

  pub adopt_interlock-OrHalts :
      (response : Option Text)
      → o ≡ false
      → Ensures {D = D}
          (Spoken o)
          (λ s. Talk o [] false created (core s))
          (adopt_interlock env depth fuel response)
          (OrHalts o (Goes o))
  unfolding adopt_interlock
  adopt_interlock-OrHalts none protects = pure-Ensures failure (unnamed-Halts created)
  adopt_interlock-OrHalts (some response) protects =
      let id = before b'|' response in
      if-Ensures (is_empty id || leb interlock_id_size (strlen id))
        (λ bad. pure-Ensures failure (unnamed-Halts created))
        (λ good.
          bind-Ensures {Q = λ u s. Talk o id false (adopted id) (core s)}
            (modify-Ensures _ (λ s t. record {
              observe_is = t.observe_is;
              id_is = refl;
              in_progress_is = t.in_progress_is;
              speaks = is_named (ground (arith, good)) t.speaks;
              has_id = λ e. absurd (ground (arith, t.has_id e));
            }))
            (λ u. block-OrHalts id (ground (arith, good)) protects))
