-- ===== src/Flex/Ensures.antt =====
-- Hoare triples for the computations of a session, and their rules.
use antenna_guardian_pi_lite.Common.{Bool, true, false, List, ◌∷◌, ◌≡◌, refl, sym, if◌then◌else◌}
use mathlib.Core.Path.{subst}
use antenna_guardian_pi_lite.CString.{Text}
use antenna_guardian_pi_lite.Flex.Connection.{
  Connection, Sent, Session, Outcome, returned, exhausted, Flex, continue_with, ◌>>=◌, pure,
  give_up, get, modify, call, push_trace,
}
use antenna_guardian_pi_lite.Flex.Quiet.{Core, core, Quiet}

-- Where a computation returns, Q holds of the result and the state, and where it runs out of fuel,
-- I holds of the state.
abbrev pub Post :
    {D S A : Type 0}
    → (Session D S → Type 0)
    → (A → Session D S → Type 0)
    → Outcome A × Session D S
    → Type 0
Post I Q (returned a, s) = Q a s
Post I Q (exhausted, s) = I s

-- From every state with P the computation ends so.
pub record Ensures {D S A : Type 0} (I P : Session D S → Type 0) (m : Flex D S A)
    (Q : A → Session D S → Type 0) : Type 0 where
  pub holds : (s : Session D S) → P s → Post I Q (m s)

module _ {D S A B : Type 0} {I : Session D S → Type 0} where
  continue_with-Post :
      {f : A → Flex D S B} {Q : A → Session D S → Type 0} {R : B → Session D S → Type 0}
      (x : Outcome A × Session D S)
      → Post I Q x
      → ((a : A) → Ensures I (Q a) (f a) R)
      → Post I R (continue_with x f)
  unfolding continue_with
  continue_with-Post (returned a, t) h e = (e a).holds t h
  continue_with-Post (exhausted, t) h e = h

module _ {D S : Type 0} where
  pub if-Post :
      {A : Type 0} (I : Session D S → Type 0) (Q : A → Session D S → Type 0) (b : Bool)
      (m n : Flex D S A) (s : Session D S)
      → (b ≡ true → Post I Q (m s))
      → (b ≡ false → Post I Q (n s))
      → Post I Q ((if b then m else n) s)
  if-Post I Q true m n s hm hn = hm refl
  if-Post I Q false m n s hm hn = hn refl

module _ {D S : Type 0} {I P : Session D S → Type 0} where
  pub bind-Ensures :
      {A B : Type 0} {m : Flex D S A} {f : A → Flex D S B} {Q : A → Session D S → Type 0}
      {R : B → Session D S → Type 0}
      → Ensures I P m Q
      → ((a : A) → Ensures I (Q a) (f a) R)
      → Ensures I P (m >>= f) R
  unfolding ◌>>=◌
  bind-Ensures {m} h e = record { holds = λ s p. continue_with-Post (m s) (h.holds s p) e }

  pub pure-Ensures :
      {A : Type 0} (a : A) {Q : A → Session D S → Type 0}
      → ((s : Session D S) → P s → Q a s)
      → Ensures I P (pure a) Q
  unfolding pure
  pure-Ensures a h = record { holds = h }

  pub give_up-Ensures :
      {A : Type 0} {Q : A → Session D S → Type 0}
      → ((s : Session D S) → P s → I s)
      → Ensures I P (give_up {A = A}) Q
  unfolding give_up
  give_up-Ensures h = record { holds = h }

  -- `get` hands on the connection of the state that the rest starts from.
  pub get-Ensures :
      {B : Type 0} (f : Connection D → Flex D S B) {R : B → Session D S → Type 0}
      → ((s : Session D S) → P s → Post I R (f s.conn s))
      → Ensures I P (get >>= f) R
  unfolding ◌>>=◌ continue_with get
  get-Ensures f h = record { holds = h }

  pub modify-Ensures :
      (f : Connection D → Connection D) {Q : Unit {0} → Session D S → Type 0}
      → ((s : Session D S) → P s → Q tt (record s { conn = f s.conn }))
      → Ensures I P (modify f) Q
  unfolding modify
  modify-Ensures f h = record { holds = h }

  pub call-Ensures :
      {A : Type 0} (f : S → A × S) {Q : A → Session D S → Type 0}
      → ((s : Session D S) → P s → Q (f s.world).0 (record s { world = (f s.world).1 }))
      → Ensures I P (call f) Q
  unfolding call
  call-Ensures f h = record { holds = h }

  pub push_trace-Ensures :
      (command frame : Text) {Q : Unit {0} → Session D S → Type 0}
      → ((s : Session D S)
          → P s
          → Q tt (record s {
            trace = record { command = command; frame = frame; at = s.conn } ∷ s.trace;
          }))
      → Ensures I P (push_trace command frame) Q
  unfolding push_trace
  push_trace-Ensures command frame h = record { holds = h }

  pub if-Ensures :
      {A : Type 0} (b : Bool) {m n : Flex D S A} {Q : A → Session D S → Type 0}
      → (b ≡ true → Ensures I P m Q)
      → (b ≡ false → Ensures I P n Q)
      → Ensures I P (if b then m else n) Q
  if-Ensures true hm hn = hm refl
  if-Ensures false hm hn = hn refl

  -- A stronger precondition.
  pub pre-Ensures :
      {A : Type 0} {m : Flex D S A} {P' : Session D S → Type 0} {Q : A → Session D S → Type 0}
      → ((s : Session D S) → P' s → P s)
      → Ensures I P m Q
      → Ensures I P' m Q
  pre-Ensures h e = record { holds = λ s p. e.holds s (h s p) }

-- What is said of the core alone survives a quiet computation.
module _ {D S A : Type 0} {I : Session D S → Type 0} (P : Core D × List (Sent D) → Type 0) where
  quiet-Post :
      (x : Outcome A × Session D S)
      → ((s : Session D S) → P (core s) → I s)
      → P (core x.1)
      → Post I (λ a s. P (core s)) x
  quiet-Post (returned a, t) stop p = p
  quiet-Post (exhausted, t) stop p = stop t p

  pub quiet-Ensures :
      {m : Flex D S A}
      → ((s : Session D S) → P (core s) → I s)
      → Quiet m
      → Ensures I (λ s. P (core s)) m (λ a s. P (core s))
  quiet-Ensures {m} stop q = record {
    holds = λ s p. quiet-Post (m s) stop (subst P (sym (q.kept s)) p);
  }
