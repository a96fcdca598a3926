-- ===== src/Breaker/Cache.antt =====
-- `CacheCircuitBreaker` of src/services/cache/cache-circuit-breaker.ts. It counts only connection
-- errors, and does nothing where the configuration disables it. Whether an error is a connection
-- error is the answer of `isConnectionError` (`Cache.ErrorDetector`), which the methods are given.
use authentication_v.Base.{ℕ, ◌+◌, ◌-◌, Bool, true, false, leb, if◌then◌else◌}
use authentication_v.Breaker.State.{BreakerState, closed, opened, half_open}

-- `CacheCircuitBreakerConfig`
pub record CacheBreakerConfig : Type 0 where
  pub enabled : Bool
  pub failure_threshold : ℕ
  pub reset_timeout : ℕ
  pub success_threshold : ℕ

pub record CacheBreaker : Type 0 where
  pub state : BreakerState
  pub failure_count : ℕ
  pub success_count : ℕ
  pub last_failure_time : ℕ
  pub last_success_time : ℕ
  pub total_requests : ℕ
  pub rejected_requests : ℕ
  pub last_state_change : ℕ
  pub half_open_successes : ℕ

-- `DEFAULT_CACHE_CIRCUIT_BREAKER_CONFIG`
abbrev pub default_config : CacheBreakerConfig
default_config = record {
  enabled = true;
  failure_threshold = 5;
  reset_timeout = 30000;
  success_threshold = 2;
}

unfoldable pub new : ℕ → CacheBreaker
new now = record {
  state = closed;
  failure_count = 0;
  success_count = 0;
  last_failure_time = 0;
  last_success_time = 0;
  total_requests = 0;
  rejected_requests = 0;
  last_state_change = now;
  half_open_successes = 0;
}

unfoldable pub transition_to : ℕ → BreakerState → CacheBreaker → CacheBreaker
transition_to now new_state b = record b { state = new_state; last_state_change = now }

execute_in : BreakerState → CacheBreakerConfig → ℕ → CacheBreaker → CacheBreaker × Bool
unfolding transition_to
execute_in closed config now b = (b, true)
execute_in opened config now b =
    if leb (b.last_failure_time + config.reset_timeout) now
    then (transition_to now half_open b, true)
    else (record b { rejected_requests = b.rejected_requests + 1 }, false)
execute_in half_open config now b = (b, true)

unfoldable pub can_execute : CacheBreakerConfig → ℕ → CacheBreaker → CacheBreaker × Bool
unfolding execute_in
can_execute config now b =
    if config.enabled
    then execute_in b.state config now (record b { total_requests = b.total_requests + 1 })
    else (b, true)

success_in : BreakerState → CacheBreakerConfig → ℕ → CacheBreaker → CacheBreaker
unfolding transition_to
success_in half_open config now b =
    if leb config.success_threshold (b.half_open_successes + 1)
    then record (transition_to now closed b) { half_open_successes = 0 }
    else record b { half_open_successes = b.half_open_successes + 1 }
success_in _ config now b = b

unfoldable pub record_success : CacheBreakerConfig → ℕ → CacheBreaker → CacheBreaker
unfolding success_in
record_success config now b =
    if config.enabled
    then success_in b.state config now (record b {
      failure_count = 0;
      success_count = b.success_count + 1;
      last_success_time = now;
    })
    else b

failure_in : BreakerState → CacheBreakerConfig → ℕ → CacheBreaker → CacheBreaker
unfolding transition_to
failure_in closed config now b =
    if leb config.failure_threshold b.failure_count then transition_to now opened b else b
failure_in half_open config now b = transition_to now opened b
failure_in opened config now b = b

-- `is_connection_error` is the answer of `isConnectionError(error)`.
unfoldable pub record_failure : CacheBreakerConfig → ℕ → Bool → CacheBreaker → CacheBreaker
unfolding failure_in
record_failure config now is_connection_error b =
    if config.enabled
    then if is_connection_error
      then failure_in b.state config now (record b {
        failure_count = b.failure_count + 1;
        last_failure_time = now;
        half_open_successes = 0;
      })
      else b
    else b

unfoldable pub reset : ℕ → CacheBreaker → CacheBreaker
reset now b = record b {
  state = closed;
  failure_count = 0;
  success_count = 0;
  half_open_successes = 0;
  total_requests = 0;
  rejected_requests = 0;
  last_state_change = now;
}

-- `Math.max(0, resetTimeout - (now - lastFailureTime))`: the truncated subtraction is the maximum.
recovery_left : BreakerState → CacheBreakerConfig → ℕ → CacheBreaker → ℕ
recovery_left opened config now b = config.reset_timeout + b.last_failure_time - now
recovery_left _ config now b = 0

unfoldable pub get_time_until_recovery_ms : CacheBreakerConfig → ℕ → CacheBreaker → ℕ
unfolding recovery_left
get_time_until_recovery_ms config now b = recovery_left b.state config now b

pub data Call : Type 0 where
  ask : Call
  succeeded : Call
  failed : Bool → Call
  restart : Call

unfoldable pub step : CacheBreakerConfig → CacheBreaker → ℕ × Call → CacheBreaker
unfolding can_execute record_success record_failure reset
step config b (now, ask) = (can_execute config now b).0
step config b (now, succeeded) = record_success config now b
step config b (now, failed connection) = record_failure config now connection b
step config b (now, restart) = reset now b
