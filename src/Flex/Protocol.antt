-- ===== src/Flex/Protocol.antt =====
-- The protocol that a session speaks with the radio: which commands, in which order.
pub mod Handling
pub mod Sending
pub mod Commanding
pub mod Sessions
pub mod Creating
pub mod Whole
use antenna_guardian_pi_lite.Common.{ℕ, Bool, true, false, List, [], ◌∷◌, ◌++◌, map, ◌≡◌}
use antenna_guardian_pi_lite.CString.{Text, codes, is_empty, bounded}
use antenna_guardian_pi_lite.Config.{Config}
use antenna_guardian_pi_lite.Flex.Connection.{Sent, Session}
use antenna_guardian_pi_lite.Flex.Quiet.{Core, core}

-- What a session sends first, in either mode.
abbrev pub subscriptions : List Text
subscriptions =
    codes "name AntennaGuardianPiLite"
    ∷ codes "sub radio all"
    ∷ codes "sub slice all"
    ∷ codes "sub tx all"
    ∷ []

abbrev pub create_prefix : Text
create_prefix =
    codes "interlock create type=ANT name=AntennaGuardianPiLite serial=raspberrypi valid_antennas="

-- `subscribing` has the commands that are still to come; the others have the id of the interlock.
pub data Phase : Type 0 where
  subscribing : List Text → Phase
  created : Phase
  adopted guarding removed : Text → Phase

-- What may be said in a phase, and the phase that follows. The two commands that change the interlock
-- and the one that removes it name its id. In observe mode nothing follows the subscriptions.
pub data Says (observe_only : Bool) : Phase → Text → Phase → Type 0 where
  subscribes :
      {command : Text} {later : List Text}
      → Says observe_only (subscribing (command ∷ later)) command (subscribing later)
  creates :
      {antennas : Text}
      → observe_only ≡ false
      → Says observe_only (subscribing []) (create_prefix ++ antennas) created
  blocks :
      {id : Text}
      → Says observe_only
          (adopted id)
          (bounded 128 (codes "interlock not_ready " ++ id))
          (guarding id)
  updates_ready :
      {id : Text}
      → Says observe_only (guarding id) (bounded 128 (codes "interlock ready " ++ id)) (guarding id)
  updates_not_ready :
      {id : Text}
      → Says observe_only
          (guarding id)
          (bounded 128 (codes "interlock not_ready " ++ id))
          (guarding id)
  removes_early :
      {id : Text}
      → Says observe_only (adopted id) (bounded 128 (codes "interlock remove " ++ id)) (removed id)
  removes :
      {id : Text}
      → Says observe_only (guarding id) (bounded 128 (codes "interlock remove " ++ id)) (removed id)

-- A conversation, the last command first. The radio names the interlock between two commands.
pub data Speaks (observe_only : Bool) : Phase → List Text → Type 0 where
  starts : Speaks observe_only (subscribing subscriptions) []
  says :
      {p q : Phase} {command : Text} {commands : List Text}
      → Says observe_only p command q
      → Speaks observe_only p commands
      → Speaks observe_only q (command ∷ commands)
  is_named :
      {id : Text} {commands : List Text}
      → is_empty id ≡ false
      → Speaks observe_only created commands
      → Speaks observe_only (adopted id) commands

module _ {D : Type 0} where
  abbrev pub commands : List (Sent D) → List Text
  commands = map (λ e. e.command)

  -- The mode is o, the interlock id i and a command in progress or not; what was sent is a conversation
  -- up to phase p; an update is deferred only for an interlock.
  pub record Talk (o : Bool) (i : Text) (b : Bool) (p : Phase) (x : Core D × List (Sent D))
      : Type 0 where
    pub observe_is : x.0.observe_only ≡ o
    pub id_is : x.0.interlock_id ≡ i
    pub in_progress_is : x.0.command_in_progress ≡ b
    pub speaks : Speaks o p (commands x.1)
    pub has_id : x.0.interlock_update_pending ≡ true → is_empty i ≡ false

  -- What was sent is a conversation up to some phase.
  abbrev pub Spoken : {S : Type 0} → Bool → Session D S → Type 0
  Spoken o s = (p : Phase) × Speaks o p (commands s.trace)
