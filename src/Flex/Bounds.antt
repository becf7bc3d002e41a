-- ===== src/Flex/Bounds.antt =====
-- The arrays of ag_connection: the bounds, and the rules for the computations that keep them.
pub mod Reading
pub mod Commands
pub mod Sessions
use antenna_guardian_pi_lite.Common.{
  ℕ, ◌≤◌, ◌<◌, Bool, true, false, List, Option, none, some, ◌≡◌, if◌then◌else◌, length, All,
}
use antenna_guardian_pi_lite.CString.{Text}
use antenna_guardian_pi_lite.Config.{max_antenna_id}
use antenna_guardian_pi_lite.Flex.Connection.{
  SavedResponse, Connection, Session, Outcome, returned, exhausted, Flex, continue_with, ◌>>=◌,
  pure, give_up, get, modify, call, push_trace, line_buffer, response_body_size, interlock_id_size,
}

-- Every text fits its array, with its NUL where it has one, and the cache has its eight slots.
pub record IsBounded (buffer id antenna : Text) (slots : List SavedResponse) : Type 0 where
  pub buffer_fits : length buffer ≤ line_buffer
  pub id_fits : length id < interlock_id_size
  pub antenna_fits : length antenna ≤ max_antenna_id
  pub slots_are : length slots ≡ 8
  pub bodies_fit : All (λ slot. length slot.body < response_body_size) slots

abbrev pub Bounded : {D : Type 0} → Connection D → Type 0
Bounded c = IsBounded c.receive_buffer c.interlock_id c.tx_antenna c.saved_responses

module _ {D S : Type 0} where
  pub record Keeps {A : Type 0} (m : Flex D S A) : Type 0 where
    pub kept : (s : Session D S) → Bounded s.conn → Bounded (m s).1.conn

module _ {D S A B : Type 0} where
  continue_with-Bounded :
      (x : Outcome A × Session D S) (f : A → Flex D S B)
      → Bounded x.1.conn
      → ((a : A) → Keeps (f a))
      → Bounded (continue_with x f).1.conn
  unfolding continue_with
  continue_with-Bounded (returned a, t) f b k = (k a).kept t b
  continue_with-Bounded (exhausted, t) f b k = b

  pub bind-Keeps :
      {m : Flex D S A} {f : A → Flex D S B} → Keeps m → ((a : A) → Keeps (f a)) → Keeps (m >>= f)
  unfolding ◌>>=◌
  bind-Keeps {m} {f} km kf = record { kept = λ s b. continue_with-Bounded (m s) f (km.kept s b) kf }

module _ {D S : Type 0} where
  pub pure-Keeps : {A : Type 0} (a : A) → Keeps {D = D} {S = S} (pure a)
  unfolding pure
  pure-Keeps a = record { kept = λ s b. b }

  pub give_up-Keeps : (A : Type 0) → Keeps {D = D} {S = S} (give_up {A = A})
  unfolding give_up
  give_up-Keeps A = record { kept = λ s b. b }

  pub get-Keeps : Keeps {D = D} {S = S} get
  unfolding get
  get-Keeps = record { kept = λ s b. b }

  pub call-Keeps : {A : Type 0} (f : S → A × S) → Keeps {D = D} {S = S} (call f)
  unfolding call
  call-Keeps f = record { kept = λ s b. b }

  pub push_trace-Keeps : (command frame : Text) → Keeps {D = D} {S = S} (push_trace command frame)
  unfolding push_trace
  push_trace-Keeps command frame = record { kept = λ s b. b }

  pub modify-Keeps :
      (f : Connection D → Connection D)
      → ((c : Connection D) → Bounded c → Bounded (f c))
      → Keeps {D = D} {S = S} (modify f)
  unfolding modify
  modify-Keeps f h = record { kept = λ s b. h s.conn b }

  pub if-Keeps :
      {A : Type 0} (b : Bool) {m n : Flex D S A} → Keeps m → Keeps n → Keeps (if b then m else n)
  if-Keeps true km kn = km
  if-Keeps false km kn = kn

  pub option-Keeps :
      {X A : Type 0} (found : Option X) {m : Flex D S A} {f : X → Flex D S A}
      → Keeps m
      → ((x : X) → Keeps (f x))
      → Keeps (elim found [ none ↦ m | some x ↦ f x ])
  option-Keeps none km kf = km
  option-Keeps (some x) km kf = kf x
