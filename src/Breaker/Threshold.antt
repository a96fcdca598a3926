-- ===== src/Breaker/Threshold.antt =====
-- What holds of a telemetry breaker between two calls, and when it opens, rejects and recovers.
use authentication_v.Base.{
  ℕ, suc, ◌+◌, ◌≤◌, ◌<◌, ◌≡◌, ◌↔◌, ◌≢◌, Bool, true, false, ◌&&◌, some, none, List, [], ◌∷◌, arith,
  length, leb, leb→le, le→leb, Bool-cases, inl, inr, if◌then◌else◌,
}
use authentication_v.Breaker.State.{BreakerState, closed, opened, half_open}
use authentication_v.Breaker.Telemetry.{
  BreakerConfig, Breaker, Call, ask, succeeded, failed, tick, restart, new, can_execute,
  recovery_time, step,
}

-- A configuration that the schema admits: thresholds are positive.
pub record IsUsable (config : BreakerConfig) : Type 0 where
  pub failures : 0 < config.failure_threshold
  pub successes : 0 < config.success_threshold

pub record IsSound (config : BreakerConfig) (b : Breaker) : Type 0 where
  pub below_failures : b.state ≡ closed → b.failure_count < config.failure_threshold
  pub below_successes : b.state ≡ half_open → b.half_open_successes < config.success_threshold
  pub no_successes : b.state ≢ half_open → b.half_open_successes ≡ 0
  pub rejected_bounded : b.rejected_requests ≤ b.total_requests

pub new-IsSound : (config : BreakerConfig) (now : ℕ) → IsUsable config → IsSound config (new now)
unfolding new
new-IsSound config now u = ground arith

pub step-IsSound :
    (config : BreakerConfig) (b : Breaker) (now : ℕ) (c : Call)
    → IsUsable config
    → IsSound config b
    → IsSound config (step config b (now, c))
unfolding step
step-IsSound config b now ask u h = ground arith
step-IsSound config b now succeeded u h = ground arith
step-IsSound config b now failed u h = ground arith
step-IsSound config b now tick u h = ground arith
step-IsSound config b now restart u h = ground arith

unfoldable pub run : BreakerConfig → List (ℕ × Call) → Breaker → Breaker
run config [] b = b
run config (c ∷ cs) b = run config cs (step config b c)

run_from-IsSound :
    (config : BreakerConfig) (cs : List (ℕ × Call)) (b : Breaker)
    → IsUsable config
    → IsSound config b
    → IsSound config (run config cs b)
unfolding run
run_from-IsSound config [] b u h = h
run_from-IsSound config ((now, c) ∷ cs) b u h =
    run_from-IsSound config cs (step config b (now, c)) u (step-IsSound config b now c u h)

-- Whatever calls are made, at whatever times, on a new breaker with positive thresholds: while it is
-- closed it has seen fewer consecutive failures than the failure threshold, while it is half-open
-- it has seen fewer successes than the success threshold, in the other states no half-open success
-- is left over, and it has rejected no more requests than were made.
pub run-IsSound :
    (config : BreakerConfig) (start : ℕ) (cs : List (ℕ × Call))
    → IsUsable config
    → IsSound config (run config cs (new start))
run-IsSound config start cs u =
    run_from-IsSound config cs (new start) u (new-IsSound config start u)

-- A request is refused exactly when the breaker is open and the recovery timeout has not passed
-- since the last failure.
pub can_execute-refuses_iff :
    (config : BreakerConfig) (now : ℕ) (b : Breaker)
    → ((can_execute config now b).1 ≡ false)
      ↔ ((b.state ≡ opened) × (now < b.last_failure_time + config.recovery_timeout))
unfolding can_execute
can_execute-refuses_iff config now b = (λ h. ground arith, λ h. ground arith)

-- The calls of failures at the given instants.
abbrev pub failures : List ℕ → List (ℕ × Call)
failures [] = []
failures (t ∷ ts) = (t, failed) ∷ failures ts

abbrev pub successes : List ℕ → List (ℕ × Call)
successes [] = []
successes (t ∷ ts) = (t, succeeded) ∷ successes ts

failing_below :
    (config : BreakerConfig) (b : Breaker) (now : ℕ)
    → b.state ≡ closed
    → b.failure_count + 1 < config.failure_threshold
    → ((step config b (now, failed)).state ≡ closed)
      × ((step config b (now, failed)).failure_count ≡ b.failure_count + 1)
unfolding step
failing_below config b now h k = ground arith

failing_at :
    (config : BreakerConfig) (b : Breaker) (now : ℕ)
    → b.state ≡ closed
    → config.failure_threshold ≤ b.failure_count + 1
    → (step config b (now, failed)).state ≡ opened
unfolding step
failing_at config b now h k = ground arith

open_stays :
    (config : BreakerConfig) (ts : List ℕ) (b : Breaker)
    → b.state ≡ opened
    → (run config (failures ts) b).state ≡ opened
unfolding run step
open_stays config [] b h = h
open_stays config (t ∷ ts) b h = open_stays config ts (step config b (t, failed)) (ground arith)

-- A closed breaker below its threshold that sees any number of failures in a row, at any times, is
-- open afterwards exactly when they bring the count of consecutive failures to the threshold, and
-- otherwise it is still closed.
pub opens_at_threshold :
    (config : BreakerConfig) (ts : List ℕ) (b : Breaker)
    → b.state ≡ closed
    → b.failure_count < config.failure_threshold
    → (run config (failures ts) b).state
      ≡ (if leb config.failure_threshold (b.failure_count + length ts) then opened else closed)
unfolding run
opens_at_threshold config [] b h below = ground arith
opens_at_threshold config (t ∷ ts) b h below =
    elim (Bool-cases (leb config.failure_threshold (b.failure_count + 1))) [
      | inl trip ↦
          rw
            (le→leb config.failure_threshold (b.failure_count + suc (length ts))
              (omega (arith, leb→le _ _ trip)))
            (open_stays config ts (step config b (t, failed))
              (failing_at config b t h (leb→le _ _ trip)))
      | inr stay ↦
          let small : b.failure_count + 1 < config.failure_threshold = ground arith in
          let (still, counted) = failing_below config b t h small in
          let e : b.failure_count + suc (length ts)
              ≡ (step config b (t, failed)).failure_count + length ts =
            omega arith in
          rw e (opens_at_threshold config ts (step config b (t, failed)) still (omega arith))
    ]

probing_below :
    (config : BreakerConfig) (b : Breaker) (now : ℕ)
    → b.state ≡ half_open
    → b.half_open_successes + 1 < config.success_threshold
    → ((step config b (now, succeeded)).state ≡ half_open)
      × ((step config b (now, succeeded)).half_open_successes ≡ b.half_open_successes + 1)
unfolding step
probing_below config b now h k = ground arith

probing_at :
    (config : BreakerConfig) (b : Breaker) (now : ℕ)
    → b.state ≡ half_open
    → config.success_threshold ≤ b.half_open_successes + 1
    → (step config b (now, succeeded)).state ≡ closed
unfolding step
probing_at config b now h k = ground arith

closed_stays :
    (config : BreakerConfig) (ts : List ℕ) (b : Breaker)
    → b.state ≡ closed
    → (run config (successes ts) b).state ≡ closed
unfolding run step
closed_stays config [] b h = h
closed_stays config (t ∷ ts) b h =
    closed_stays config ts (step config b (t, succeeded)) (ground arith)

closes_at_threshold :
    (config : BreakerConfig) (ts : List ℕ) (b : Breaker)
    → b.state ≡ half_open
    → b.half_open_successes < config.success_threshold
    → (run config (successes ts) b).state ≡ (
        if leb config.success_threshold (b.half_open_successes + length ts)
        then closed
        else half_open)
unfolding run
closes_at_threshold config [] b h below = ground arith
closes_at_threshold config (t ∷ ts) b h below =
    elim (Bool-cases (leb config.success_threshold (b.half_open_successes + 1))) [
      | inl done ↦
          rw
            (le→leb config.success_threshold (b.half_open_successes + suc (length ts))
              (omega (arith, leb→le _ _ done)))
            (closed_stays config ts (step config b (t, succeeded))
              (probing_at config b t h (leb→le _ _ done)))
      | inr more ↦
          let small : b.half_open_successes + 1 < config.success_threshold = ground arith in
          let (still, counted) = probing_below config b t h small in
          let e : b.half_open_successes + suc (length ts)
              ≡ (step config b (t, succeeded)).half_open_successes + length ts =
            omega arith in
          rw e (closes_at_threshold config ts (step config b (t, succeeded)) still (omega arith))
    ]

admitted :
    (config : BreakerConfig) (now : ℕ) (b : Breaker)
    → IsSound config b
    → b.state ≡ opened
    → b.last_failure_time + config.recovery_timeout ≤ now
    → ((step config b (now, ask)).state ≡ half_open)
      × ((step config b (now, ask)).half_open_successes ≡ 0)
unfolding step
admitted config now b s h due = ground (arith, s.no_successes)

-- An open breaker recovers: once the recovery timeout has passed since the last failure, a request
-- makes it half-open, and after any successes that follow, with nothing between them, it is closed
-- exactly when there were as many of them as the success threshold, and half-open otherwise.
pub recovers_at_threshold :
    (config : BreakerConfig) (now : ℕ) (ts : List ℕ) (b : Breaker)
    → IsUsable config
    → IsSound config b
    → b.state ≡ opened
    → b.last_failure_time + config.recovery_timeout ≤ now
    → (run config ((now, ask) ∷ successes ts) b).state
      ≡ (if leb config.success_threshold (length ts) then closed else half_open)
unfolding run
recovers_at_threshold config now ts b u s h due =
    let (probing, fresh) = admitted config now b s h due in
    let e : length ts ≡ (step config b (now, ask)).half_open_successes + length ts = omega arith in
    rw e (closes_at_threshold config ts (step config b (now, ask)) probing (omega arith))

abbrev pub is_half_open : BreakerState → Bool
is_half_open half_open = true
is_half_open _ = false

abbrev pub is_closed : BreakerState → Bool
is_closed closed = true
is_closed _ = false

-- A transition reports a recovery exactly when it closes a half-open breaker, and then always with
-- a recovery time of 0 milliseconds, however long the breaker was open.
pub recovery_time-eq-zero :
    (now : ℕ) (new_state : BreakerState) (b : Breaker)
    → recovery_time now new_state b
      ≡ (if is_half_open b.state && is_closed new_state then some 0 else none)
unfolding recovery_time
recovery_time-eq-zero now new_state b = ground arith
