-- ===== src/Flex/Safety.antt =====
-- What every frame of a session obeys: the statement, and the invariant that carries it.
pub mod Handlers
pub mod Between
pub mod Commands
pub mod Sending
pub mod Sessions
pub mod Whole
use antenna_guardian_pi_lite.Common.{Bool, true, false, List, ◌≡◌, All, some}
use antenna_guardian_pi_lite.CString.{Text, codes, starts_with, is_empty}
use antenna_guardian_pi_lite.Config.{Config}
use antenna_guardian_pi_lite.Floats.{Floats}
use antenna_guardian_pi_lite.Policy.{ag_policy_evaluate}
use antenna_guardian_pi_lite.Flex.Connection.{Connection, Env, Sent, Session, Status, success}
use antenna_guardian_pi_lite.Flex.Handlers.{evaluate_context}
use antenna_guardian_pi_lite.Flex.Quiet.{Core, core}

module _ {D : Type 0} ⦃fp : Floats D⦄ where
  -- The policy permits the frequency and the antenna that the connection knows.
  abbrev pub core_allows : Core D → Bool
  core_allows c =
      (ag_policy_evaluate c.config c.has_frequency c.frequency_mhz (some c.tx_antenna)).allowed

  abbrev pub context_allows : Connection D → Bool
  context_allows c =
      (ag_policy_evaluate c.config c.has_frequency c.frequency_mhz (some c.tx_antenna)).allowed

  -- `interlock ready` goes out only while the policy permits the current context, and no interlock
  -- command goes out in observe mode.
  abbrev pub MayBeSent : Text → Connection D → Type 0
  MayBeSent command c =
      (starts_with (codes "interlock ready ") command ≡ true → context_allows c ≡ true)
      × (starts_with (codes "interlock ") command ≡ true → c.observe_only ≡ false)

  abbrev pub IsAuthorised : Sent D → Type 0
  IsAuthorised e = MayBeSent e.command e.at

  -- The configuration is k, the mode o and the interlock id i; what was sent was authorised; an
  -- update is deferred only in protect mode with an interlock.
  pub record Base (k : Config) (o : Bool) (i : Text) (x : Core D × List (Sent D)) : Type 0 where
    pub config_is : x.0.config ≡ k
    pub observe_is : x.0.observe_only ≡ o
    pub id_is : x.0.interlock_id ≡ i
    pub authorised : All IsAuthorised x.1
    pub protects : x.0.interlock_update_pending ≡ true → o ≡ false
    pub has_id : x.0.interlock_update_pending ≡ true → is_empty i ≡ false

  -- A deferred `ready` is permitted in the current context.
  abbrev pub Deferral : Core D → Type 0
  Deferral c =
      c.interlock_update_pending ≡ true → c.pending_interlock_ready ≡ true → core_allows c ≡ true

  -- Within a command.
  pub record Busy (k : Config) (o : Bool) (i : Text) (x : Core D × List (Sent D)) : Type 0 where
    pub base : Base k o i x
    pub deferral : Deferral x.0
    pub in_progress : x.0.command_in_progress ≡ true

  -- Between commands, with no update left.
  pub record Calm (k : Config) (o : Bool) (i : Text) (x : Core D × List (Sent D)) : Type 0 where
    pub base : Base k o i x
    pub not_pending : x.0.interlock_update_pending ≡ false
    pub idle : x.0.command_in_progress ≡ false

  -- Between commands.
  pub record Idle (k : Config) (o : Bool) (i : Text) (x : Core D × List (Sent D)) : Type 0 where
    pub base : Base k o i x
    pub deferral : Deferral x.0
    pub idle : x.0.command_in_progress ≡ false

  abbrev pub Authorised : {S : Type 0} → Session D S → Type 0
  Authorised s = All IsAuthorised s.trace

  -- After a call that succeeded, an update is left only if the program is to stop.
  pub record Settled {S : Type 0} (env : Env S) (k : Config) (o : Bool) (i : Text) (r : Status)
      (s : Session D S) : Type 0 where
    pub between : Idle k o i (core s)
    pub left_over :
        r ≡ success → s.conn.interlock_update_pending ≡ true → (env.stop_requested s.world).0 ≡ true
