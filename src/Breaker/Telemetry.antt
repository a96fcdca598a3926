-- ===== src/Breaker/Telemetry.antt =====
-- `TelemetryCircuitBreaker` of src/telemetry/telemetry-circuit-breaker.ts. Every method takes the
-- instant `now` (milliseconds) at which it runs, and returns the new object beside its result.
-- The metrics and log lines that it writes are left out, except the recovery notice.
use authentication_v.Base.{ℕ, ◌+◌, ◌-◌, Bool, true, false, Option, none, some, leb, if◌then◌else◌}
use authentication_v.Breaker.State.{BreakerState, closed, opened, half_open}

-- `TelemetryCircuitBreakerConfig`
pub record BreakerConfig : Type 0 where
  pub failure_threshold : ℕ
  pub recovery_timeout : ℕ
  pub success_threshold : ℕ
  pub monitoring_interval : ℕ

-- The private fields. `monitoring` says whether the interval of `checkRecovery` is set.
pub record Breaker : Type 0 where
  pub state : BreakerState
  pub failure_count : ℕ
  pub success_count : ℕ
  pub last_failure_time : ℕ
  pub last_success_time : ℕ
  pub total_requests : ℕ
  pub rejected_requests : ℕ
  pub last_state_change : ℕ
  pub half_open_successes : ℕ
  pub monitoring : Bool

unfoldable pub new : ℕ → Breaker
new now = record {
  state = closed;
  failure_count = 0;
  success_count = 0;
  last_failure_time = 0;
  last_success_time = 0;
  total_requests = 0;
  rejected_requests = 0;
  last_state_change = now;
  half_open_successes = 0;
  monitoring = true;
}

unfoldable pub shutdown : Breaker → Breaker
shutdown b = record b { monitoring = false }

unfoldable pub transition_to : ℕ → BreakerState → Breaker → Breaker
transition_to now new_state b = record b { state = new_state; last_state_change = now }

-- `Date.now() - this.lastFailureTime >= this.config.recoveryTimeout`, with the sum on one side, so
-- that a clock that went back is read as the source reads it.
abbrev pub recovery_due : BreakerConfig → ℕ → Breaker → Bool
recovery_due config now b = leb (b.last_failure_time + config.recovery_timeout) now

-- The `switch` of `canExecute`, after the request is counted.
execute_in : BreakerState → BreakerConfig → ℕ → Breaker → Breaker × Bool
unfolding transition_to
execute_in closed config now b = (b, true)
execute_in opened config now b =
    if recovery_due config now b
    then (transition_to now half_open b, true)
    else (record b { rejected_requests = b.rejected_requests + 1 }, false)
execute_in half_open config now b = (b, true)

unfoldable pub can_execute : BreakerConfig → ℕ → Breaker → Breaker × Bool
unfolding execute_in
can_execute config now b =
    execute_in b.state config now (record b { total_requests = b.total_requests + 1 })

-- The branch of `recordSuccess` in each state.
success_in : BreakerState → BreakerConfig → ℕ → Breaker → Breaker
unfolding transition_to
success_in half_open config now b =
    if leb config.success_threshold (b.half_open_successes + 1)
    then record (transition_to now closed b) { half_open_successes = 0 }
    else record b { half_open_successes = b.half_open_successes + 1 }
success_in _ config now b = b

unfoldable pub record_success : BreakerConfig → ℕ → Breaker → Breaker
unfolding success_in
record_success config now b =
    success_in b.state config now
      (record b { failure_count = 0; success_count = b.success_count + 1; last_success_time = now })

-- The branch of `recordFailure` in each state.
failure_in : BreakerState → BreakerConfig → ℕ → Breaker → Breaker
unfolding transition_to
failure_in closed config now b =
    if leb config.failure_threshold b.failure_count then transition_to now opened b else b
failure_in half_open config now b = transition_to now opened b
failure_in opened config now b = b

unfoldable pub record_failure : BreakerConfig → ℕ → Breaker → Breaker
unfolding failure_in
record_failure config now b = failure_in b.state config now (record b {
  failure_count = b.failure_count + 1;
  last_failure_time = now;
  half_open_successes = 0;
})

-- The callback of the monitoring interval.
check_in : BreakerState → BreakerConfig → ℕ → Breaker → Breaker
unfolding transition_to
check_in opened config now b =
    if recovery_due config now b then transition_to now half_open b else b
check_in _ config now b = b

unfoldable pub check_recovery : BreakerConfig → ℕ → Breaker → Breaker
unfolding check_in
check_recovery config now b = check_in b.state config now b

unfoldable pub reset : ℕ → Breaker → Breaker
unfolding transition_to
reset now b = record (transition_to now closed b) {
  failure_count = 0;
  success_count = 0;
  half_open_successes = 0;
  total_requests = 0;
  rejected_requests = 0;
}

-- The field `recovery_time_ms` of the log line that `transitionTo` writes when a half-open breaker
-- closes, and nothing where it writes none. It is computed after the object is updated.
recovery_time_after : BreakerState → BreakerState → ℕ → Breaker → Option ℕ
recovery_time_after half_open closed now b = some (now - b.last_state_change)
recovery_time_after _ _ now b = none

unfoldable pub recovery_time : ℕ → BreakerState → Breaker → Option ℕ
unfolding transition_to recovery_time_after
recovery_time now new_state b =
    recovery_time_after b.state new_state now (transition_to now new_state b)

-- What the callers and the timer do with the object.
pub data Call : Type 0 where
  ask : Call
  succeeded : Call
  failed : Call
  tick : Call
  restart : Call

unfoldable pub step : BreakerConfig → Breaker → ℕ × Call → Breaker
unfolding can_execute record_success record_failure check_recovery reset
step config b (now, ask) = (can_execute config now b).0
step config b (now, succeeded) = record_success config now b
step config b (now, failed) = record_failure config now b
step config b (now, tick) = check_recovery config now b
step config b (now, restart) = reset now b
