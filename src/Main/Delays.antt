-- ===== src/Main/Delays.antt =====
-- The reconnect loop of main: its delays and its exit codes.
use antenna_guardian_pi_lite.Common.{
  ℕ, zero, suc, ◌≤◌, Bool, true, false, ◌||◌, List, Option, none, some, ◌≡◌, refl, ◌⊎◌, inl, inr,
  arith, Bool-cases, if◌then◌else◌, All,
}
use antenna_guardian_pi_lite.Config.{Config}
use antenna_guardian_pi_lite.Config.Selected.{IsTimed}
use antenna_guardian_pi_lite.Flex.Connection.{SessionResult}
use antenna_guardian_pi_lite.Retry.{ag_retry_next_delay}
use antenna_guardian_pi_lite.Retry.Backoff.{ag_retry_next_delay-min}
use antenna_guardian_pi_lite.Main.{MainEnv, State, Exit, exit_code, exhausted}
use antenna_guardian_pi_lite.Main.Loops.{
  is_stopped, is_unavailable, stop_now, now, run_session, pause, plan_log, back_off, go_on,
  reconnect, after_session, direct_loop,
}

-- The delays lie between the initial and the maximal one.
abbrev pub InRange : Config → ℕ → Type 0
InRange config d = (config.reconnect_seconds ≤ d) × (d ≤ config.reconnect_max_seconds)

pub record IsSteady (config : Config) (delay : ℕ) (sleeps : List ℕ) : Type 0 where
  pub next : InRange config delay
  pub slept : All (InRange config) sleeps

-- How a loop may end.
pub record EndsWell {W : Type 0} (config : Config) (once : Bool) (end : Exit × State W)
    : Type 0 where
  pub steady : IsSteady config end.1.retry_delay end.1.sleeps
  pub code : (n : ℕ) → end.0 ≡ exit_code n → (n ≡ 0) ⊎ ((n ≡ 1) × (once ≡ true))

ag_retry_next_delay-InRange :
    (config : Config) (d : ℕ)
    → IsTimed config
    → InRange config d
    → InRange config (ag_retry_next_delay d config.reconnect_max_seconds)
ag_retry_next_delay-InRange config d t r =
    let doubled =
      ag_retry_next_delay-min d config.reconnect_max_seconds (omega (arith, r, t.max_range))
        (omega (arith, t.max_range)) in
    rw doubled (omega (arith, r, t.max_range))

module _ {W : Type 0} (env : MainEnv W) (config : Config) (observe_only once : Bool) (fuel : ℕ)
    (timed : IsTimed config) where
  abbrev Steady : State W → Type 0
  Steady s = IsSteady config s.retry_delay s.sleeps

  exhausted-EndsWell : (s : State W) → Steady s → EndsWell config once (exhausted, s)
  exhausted-EndsWell s h = record { steady = h; code = λ n e. cc }

  if-EndsWell :
      (b : Bool) {x y : Exit × State W}
      → (b ≡ true → EndsWell config once x)
      → (b ≡ false → EndsWell config once y)
      → EndsWell config once (if b then x else y)
  if-EndsWell true h k = h refl
  if-EndsWell false h k = k refl

  plan_log-Steady : (s : State W) → Steady s → Steady (plan_log env config observe_only once fuel s)
  unfolding plan_log now
  plan_log-Steady s h = elim (Bool-cases s.log_connection_attempt) [
    | inl logged ↦ rw logged h
    | inr silent ↦ rw silent h
  ]

  module _ (again : State W → Exit × State W)
      (again-EndsWell : (s : State W) → Steady s → EndsWell config once (again s)) where
    go_on-EndsWell :
        (change : State W → State W) (paused : Bool × State W)
        → Steady paused.1
        → ((s : State W) → Steady s → Steady (change s))
        → EndsWell config once (go_on env config observe_only once fuel again change paused)
    unfolding go_on
    go_on-EndsWell change (false, s) h k = exhausted-EndsWell s h
    go_on-EndsWell change (true, s) h k = again-EndsWell (change s) (k s h)

    reconnect-EndsWell :
        (result : SessionResult) (s : State W)
        → Steady s
        → EndsWell config once (reconnect env config observe_only once fuel again result s)
    unfolding reconnect
    reconnect-EndsWell result s h = elim (Bool-cases (is_unavailable result)) [
      | inl away ↦
          let planned = plan_log-Steady s h in
          rw away (
            go_on-EndsWell _ _
              (unfold pause in record { next = planned.next; slept = (h.next, planned.slept) })
              (λ t k.
                unfold back_off now in
                record {
                  next = ag_retry_next_delay-InRange config t.retry_delay timed k.next;
                  slept = k.slept;
                }))
      | inr lost ↦
          let initial : InRange config config.reconnect_seconds = omega (arith, timed.max_range) in
          rw lost (
            go_on-EndsWell _ _
              (unfold pause in record { next = initial; slept = (initial, h.slept) }) (λ t k. k))
    ]

    after_session-EndsWell :
        (ran : Option SessionResult × State W)
        → Steady ran.1
        → EndsWell config once (
            after_session env config observe_only once fuel
              (reconnect env config observe_only once fuel again)
              ran)
    unfolding after_session stop_now
    after_session-EndsWell (none, s) h = exhausted-EndsWell s h
    after_session-EndsWell (some result, s) h =
        let (stop, w) = env.stop_requested s.world in
        let t : State W = record s { world = w } in
        if-EndsWell (stop || is_stopped result)
          (λ ends. record { steady = h; code = λ n e. inl cc })
          (λ on.
            if-EndsWell once (λ single. record { steady = h; code = λ n e. inr (cc, single) })
              (λ forever. reconnect-EndsWell result t h))

  -- From a delay in range on, with the ranges of a loaded configuration: every sleep of the reconnect
  -- loop lies between reconnect_seconds and reconnect_max_seconds, and main returns 0 from it, or 1
  -- if it runs once.
  pub direct_loop-EndsWell :
      (rounds : ℕ) (s : State W)
      → Steady s
      → EndsWell config once (direct_loop env config observe_only once fuel rounds s)
  unfolding direct_loop
  direct_loop-EndsWell zero s h = exhausted-EndsWell s h
  direct_loop-EndsWell (suc rounds) s h =
      let (stop, w) = env.stop_requested s.world in
      let t : State W = record s { world = w } in
      unfold stop_now in
      after_flag stop t h (
        after_session-EndsWell (direct_loop env config observe_only once fuel rounds)
          (direct_loop-EndsWell rounds) (run_session env config observe_only t)
          (unfold run_session in h))
    where
      after_flag :
          {on : Exit × State W} (stop : Bool) (t : State W)
          → Steady t
          → EndsWell config once on
          → EndsWell {W = W} config once (elim stop [ true ↦ (exit_code 0, t) | false ↦ on ])
      after_flag true t h e = record { steady = h; code = λ n c. inl cc }
      after_flag false t h e = e
