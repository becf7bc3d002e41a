-- ===== src/Main/Backoff.antt =====
-- The reconnect loop of main while the radio cannot be reached: it keeps trying, with growing delays.
use antenna_guardian_pi_lite.Common.{
  ℕ, zero, suc, ◌+◌, ◌*◌, ◌%◌, ◌^◌, Bool, true, false, ◌||◌, List, [], ◌∷◌, Option, none, some, ◌≡◌,
  refl, ap, arith, ◌∙◌, if◌then◌else◌, length, inl, inr, Bool-cases,
}
use Prim.Native.Nat.{min}
use antenna_guardian_pi_lite.Config.{Config}
use antenna_guardian_pi_lite.Config.Selected.{IsTimed}
use antenna_guardian_pi_lite.Flex.Connection.{
  SessionResult, session_stopped, session_unavailable, session_disconnected, session_error,
}
use antenna_guardian_pi_lite.Retry.{ag_retry_next_delay}
use antenna_guardian_pi_lite.Retry.Backoff.{delay_after, delay_after-min}
use antenna_guardian_pi_lite.Main.{
  MainEnv, State, Exit, exhausted, nap, sleep_rounds, sleep_interruptibly,
}
use antenna_guardian_pi_lite.Main.Loops.{
  stop_now, now, run_session, pause, plan_log, back_off, go_on, reconnect, after_session,
  direct_loop, start,
}

-- Nothing stops the program, interrupts a sleep or answers.
pub record IsUnreachable {W : Type 0} (env : MainEnv W) : Type 0 where
  pub runs : (w : W) → (env.stop_requested w).0 ≡ false
  pub rests : (w : W) → (env.nanosleep w).0 ≡ false
  pub away :
      (c : Config) (observe_only log : Bool) (w : W)
      → (env.session c observe_only log w).0 ≡ some session_unavailable

-- The first n delays, the last one first: from the initial one on each is twice the one before, up to
-- the maximum.
unfoldable pub delays : ℕ → ℕ → ℕ → List ℕ
delays zero initial most = []
delays (suc n) initial most = min (initial * 2 ^ n) most ∷ delays n initial most

module _ {W : Type 0} (env : MainEnv W) (alone : IsUnreachable env) (fuel : ℕ) where
  record IsFinished (end : Bool × W) : Type 0 where
    finished : end.0 ≡ true

  stop-IsFinished :
      (b : Bool) (x : Bool × W) {y : Bool × W}
      → b ≡ false
      → IsFinished y
      → IsFinished (elim b [ true ↦ x | false ↦ y ])
  stop-IsFinished true x e h = cc
  stop-IsFinished false x e h = h

  nap-IsFinished : (w : W) → IsFinished (nap env (suc fuel) w)
  unfolding nap
  nap-IsFinished w = rested (env.nanosleep w).0 _ _ (alone.rests w)
    where
      rested :
          (b : Bool) (v : W) (y : Bool × W)
          → b ≡ false
          → IsFinished (elim b [ false ↦ (true, v) | true ↦ y ])
      rested true v y e = cc
      rested false v y e = record { finished = refl }

  sleep_rounds-IsFinished : (rounds : ℕ) (w : W) → IsFinished (sleep_rounds env (suc fuel) rounds w)
  unfolding sleep_rounds
  sleep_rounds-IsFinished zero w = record { finished = refl }
  sleep_rounds-IsFinished (suc rounds) w =
      let (stop, v) = env.stop_requested w in
      let (finished, u) = nap env (suc fuel) v in
      stop-IsFinished stop _ (alone.runs w)
        (after_nap finished u (nap-IsFinished v).finished (sleep_rounds-IsFinished rounds u))
    where
      after_nap :
          (b : Bool) (u : W) {y : Bool × W}
          → b ≡ true
          → IsFinished y
          → IsFinished (elim b [ false ↦ (false, u) | true ↦ y ])
      after_nap true u e h = h
      after_nap false u e h = cc

  module _ (config : Config) (observe_only : Bool) (timed : IsTimed config) where
    -- After k rounds.
    record IsRound (k : ℕ) (delay : ℕ) (sleeps : List ℕ) (sessions : List Config) : Type 0 where
      next : delay ≡ delay_after k config.reconnect_seconds config.reconnect_max_seconds
      slept : sleeps ≡ delays k config.reconnect_seconds config.reconnect_max_seconds
      tried : length sessions ≡ k

    abbrev Round : ℕ → State W → Type 0
    Round k s = IsRound k s.retry_delay s.sleeps s.sessions

    record EndsIn (k : ℕ) (end : Exit × State W) : Type 0 where
      exit : end.0 ≡ exhausted
      round : Round k end.1

    if-EndsIn :
        (b : Bool) {k : ℕ} (x : Exit × State W) {y : Exit × State W}
        → b ≡ false
        → EndsIn k y
        → EndsIn k (if b then x else y)
    if-EndsIn true x e h = cc
    if-EndsIn false x e h = h

    stop-EndsIn :
        (b : Bool) {k : ℕ} (x : Exit × State W) {y : Exit × State W}
        → b ≡ false
        → EndsIn k y
        → EndsIn k (elim b [ true ↦ x | false ↦ y ])
    stop-EndsIn true x e h = cc
    stop-EndsIn false x e h = h

    -- Planning the log touches none of it.
    abbrev rest_of : State W → ℕ × List ℕ × List Config
    rest_of s = (s.retry_delay, s.sleeps, s.sessions)

    rest-plan_log :
        (s : State W) → rest_of (plan_log env config observe_only false (suc fuel) s) ≡ rest_of s
    unfolding plan_log now
    rest-plan_log s = elim (Bool-cases s.log_connection_attempt) [
      | inl logged ↦ rw logged refl
      | inr silent ↦ rw silent refl
    ]

    first_delays :
        (k : ℕ)
        → delay_after k config.reconnect_seconds config.reconnect_max_seconds
            ∷ delays k config.reconnect_seconds config.reconnect_max_seconds
          ≡ delays (suc k) config.reconnect_seconds config.reconnect_max_seconds
    unfolding delays
    first_delays k =
        ap (λ d. d ∷ delays k config.reconnect_seconds config.reconnect_max_seconds)
          (delay_after-min k config.reconnect_seconds config.reconnect_max_seconds
            (omega (arith, timed.max_range)) (omega (arith, timed.max_range)))

    module _ (again : State W → Exit × State W) (k rounds : ℕ)
        (again-EndsIn : (s : State W) → Round (suc k) s → EndsIn rounds (again s)) where
      go_on-EndsIn :
          (change : State W → State W) (paused : Bool × State W)
          → paused.0 ≡ true
          → Round (suc k) (change paused.1)
          → EndsIn rounds (go_on env config observe_only false (suc fuel) again change paused)
      unfolding go_on
      go_on-EndsIn change (false, s) e h = cc
      go_on-EndsIn change (true, s) e h = again-EndsIn (change s) h

      after_session-EndsIn :
          (ran : Option SessionResult × State W)
          → ran.0 ≡ some session_unavailable
          → ran.1.retry_delay ≡ delay_after k config.reconnect_seconds config.reconnect_max_seconds
          → ran.1.sleeps ≡ delays k config.reconnect_seconds config.reconnect_max_seconds
          → length ran.1.sessions ≡ suc k
          → EndsIn rounds (
              after_session env config observe_only false
                (suc fuel)
                (reconnect env config observe_only false (suc fuel) again)
                ran)
      unfolding after_session stop_now reconnect
      after_session-EndsIn (none, s) e d l n = cc
      after_session-EndsIn (some session_stopped, s) e d l n = cc
      after_session-EndsIn (some session_disconnected, s) e d l n = cc
      after_session-EndsIn (some session_error, s) e d l n = cc
      after_session-EndsIn (some session_unavailable, s) e d l n =
          let stop = (env.stop_requested s.world).0 in
          let t : State W = record s { world = (env.stop_requested s.world).1 } in
          let planned = plan_log env config observe_only false (suc fuel) t in
          let kept = rest-plan_log t in
          if-EndsIn (stop || false) _ (ground (arith, alone.runs s.world)) (
            go_on-EndsIn (back_off env config observe_only false (suc fuel))
              (pause env (suc fuel) t.retry_delay planned)
              (unfold pause sleep_interruptibly in
                (sleep_rounds-IsFinished (t.retry_delay * 5 % 2 ^ 32) planned.world).finished)
              (unfold pause back_off now delay_after in
                record {
                  next =
                      ap (λ r. ag_retry_next_delay r.0 config.reconnect_max_seconds) kept
                      ∙ ap (λ x. ag_retry_next_delay x config.reconnect_max_seconds) d;
                  slept =
                      ap (λ r. s.retry_delay ∷ r.1) kept
                      ∙ (ap (λ x. x ∷ s.sleeps) d
                          ∙ (ap
                                (λ x.
                                  delay_after k config.reconnect_seconds
                                    config.reconnect_max_seconds
                                  ∷ x)
                                l
                              ∙ first_delays k));
                  tried = ap (λ r. length r.2) kept ∙ n;
                }))

    direct_loop-EndsIn :
        (rounds k : ℕ) (s : State W)
        → Round k s
        → EndsIn (k + rounds) (direct_loop env config observe_only false (suc fuel) rounds s)
    unfolding direct_loop stop_now
    direct_loop-EndsIn zero k s h =
        let same : k + 0 ≡ k = omega arith in rw same (record { exit = refl; round = h })
    direct_loop-EndsIn (suc rounds) k s h =
        let (stop, w) = env.stop_requested s.world in
        let t : State W = record s { world = w } in
        let later : (u : State W)
            → Round (suc k) u
            → EndsIn (k + suc rounds)
                (direct_loop env config observe_only false (suc fuel) rounds u) =
          λ u r.
            let shift : k + suc rounds ≡ suc k + rounds = omega arith in
            rw shift (direct_loop-EndsIn rounds (suc k) u r) in
        stop-EndsIn stop _ (alone.runs s.world) (
          after_session-EndsIn (direct_loop env config observe_only false (suc fuel) rounds) k
            (k + suc rounds) later (run_session env config observe_only t)
            (unfold run_session in alone.away config observe_only s.log_connection_attempt w)
            (unfold run_session in h.next) (unfold run_session in h.slept)
            (unfold run_session in ap suc h.tried))

    -- When nothing stops the program or interrupts its sleep and no session reaches the radio, main
    -- goes on trying without --once: after n rounds it has started n sessions, and slept the initial
    -- delay first and then each time twice as long, up to the maximum.
    pub direct_loop-delays :
        (rounds : ℕ) (w : W)
        → let end =
            direct_loop env config observe_only false (suc fuel) rounds (start env config w) in
          (length end.1.sessions ≡ rounds)
          × (end.1.sleeps ≡ delays rounds config.reconnect_seconds config.reconnect_max_seconds)
    unfolding delays delay_after start
    direct_loop-delays rounds w =
        let done =
          direct_loop-EndsIn rounds 0 (start env config w)
            (record { next = refl; slept = refl; tried = refl }) in
        let same : 0 + rounds ≡ rounds = omega arith in
        (
          done.round.tried ∙ same,
          done.round.slept
              ∙ ap (λ n. delays n config.reconnect_seconds config.reconnect_max_seconds) same,
        )
