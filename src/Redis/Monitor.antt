-- ===== src/Redis/Monitor.antt =====
-- `CacheHealthMonitor` of src/services/cache/cache-health-monitor.ts, without its log lines. A check is
-- given how its ping ended, under the time limit of the configuration; what `setInterval` does is the
-- sequence of checks.
use authentication_v.Base.{
  ℕ, ◌+◌, ◌-◌, Bool, true, false, Option, none, some, String, List, [], ◌∷◌, ◌++◌, ltb, leb,
  if◌then◌else◌,
}
use authentication_v.Breaker.Cache.{
  CacheBreaker, CacheBreakerConfig, record_success, record_failure,
}
use authentication_v.Redis.Detector.{is_connection_error}

-- `CacheHealthStatus`
pub data HealthStatus : Type 0 where
  healthy degraded unhealthy unknown : HealthStatus

-- `CacheHealthMonitorConfig`
pub record MonitorConfig : Type 0 where
  pub enabled : Bool
  pub interval_ms : ℕ
  pub unhealthy_threshold : ℕ
  pub healthy_threshold : ℕ
  pub ping_timeout_ms : ℕ

-- `DEFAULT_HEALTH_MONITOR_CONFIG`
abbrev pub default_monitor_config : MonitorConfig
default_monitor_config = record {
  enabled = true;
  interval_ms = 10000;
  unhealthy_threshold = 3;
  healthy_threshold = 2;
  ping_timeout_ms = 500;
}

-- `CacheHealthCheckResult`; a check succeeded where it has no error.
pub record CheckResult : Type 0 where
  pub response_time_ms : Option ℕ
  pub error : Option String
  pub timestamp : ℕ

-- The fields of the class; `has_interval` tells whether `intervalId` is set.
pub record Monitor : Type 0 where
  pub status : HealthStatus
  pub consecutive_successes : ℕ
  pub consecutive_failures : ℕ
  pub last_check : Option CheckResult
  pub last_status_change : ℕ
  pub recent_response_times : List ℕ
  pub has_interval : Bool
  pub is_running : Bool

unfoldable pub new : ℕ → Monitor
new now = record {
  status = unknown;
  consecutive_successes = 0;
  consecutive_failures = 0;
  last_check = none;
  last_status_change = now;
  recent_response_times = [];
  has_interval = false;
  is_running = false;
}

-- With whether the first check and the interval are started.
unfoldable pub start : MonitorConfig → Monitor → Monitor × Bool
start config m =
    if config.enabled
    then if m.is_running
      then (m, false)
      else (record m { is_running = true; has_interval = true }, true)
    else (m, false)

unfoldable pub stop : Monitor → Monitor
stop m = record m { has_interval = false; is_running = false }

abbrev same_status : HealthStatus → HealthStatus → Bool
same_status healthy healthy = true
same_status degraded degraded = true
same_status unhealthy unhealthy = true
same_status unknown unknown = true
same_status _ _ = false

-- The assignment of the status, with the instant of its last change.
abbrev change_status : ℕ → HealthStatus → Monitor → Monitor
change_status now status m =
    if same_status m.status status
    then m
    else record m { status = status; last_status_change = now }

-- `MAX_RESPONSE_TIME_SAMPLES`
abbrev pub max_response_time_samples : ℕ
max_response_time_samples = 10

abbrev pub length : List ℕ → ℕ
length [] = 0
length (x ∷ xs) = length xs + 1

abbrev shift : List ℕ → List ℕ
shift [] = []
shift (x ∷ xs) = xs

unfoldable pub push_sample : ℕ → List ℕ → List ℕ
push_sample took samples =
    let pushed = samples ++ (took ∷ []) in
    if ltb max_response_time_samples (length pushed) then shift pushed else pushed

abbrev status_after_success : HealthStatus → HealthStatus
status_after_success unhealthy = degraded
status_after_success status = status

abbrev status_after_failure : HealthStatus → HealthStatus
status_after_failure healthy = degraded
status_after_failure status = status

unfoldable pub note_success : MonitorConfig → ℕ → ℕ → Monitor → Monitor
unfolding push_sample
note_success config start_time now m =
    let counted = record m {
      consecutive_successes = m.consecutive_successes + 1;
      consecutive_failures = 0;
      last_check = some (record {
        response_time_ms = some (now - start_time);
        error = none;
        timestamp = start_time;
      });
      recent_response_times = push_sample (now - start_time) m.recent_response_times;
    } in
    change_status now
      (if leb config.healthy_threshold (m.consecutive_successes + 1)
        then healthy
        else status_after_success m.status)
      counted

unfoldable pub note_failure : MonitorConfig → ℕ → ℕ → String → Monitor → Monitor
note_failure config start_time now error m =
    let counted = record m {
      consecutive_failures = m.consecutive_failures + 1;
      consecutive_successes = 0;
      last_check =
          some (record { response_time_ms = none; error = some error; timestamp = start_time });
    } in
    change_status now
      (if leb config.unhealthy_threshold (m.consecutive_failures + 1)
        then unhealthy
        else status_after_failure m.status)
      counted

-- `performHealthCheck`, with the circuit breaker that the monitor was given; the ping ends with no
-- error or with the message of one.
unfoldable pub perform_health_check :
    MonitorConfig
    → CacheBreakerConfig
    → ℕ
    → ℕ
    → Option String
    → Monitor × CacheBreaker
    → Monitor × CacheBreaker
unfolding note_success note_failure
perform_health_check config breaker_config start_time now none (m, b) =
    (note_success config start_time now m, record_success breaker_config now b)
perform_health_check config breaker_config start_time now (some error) (m, b) = (
  note_failure config start_time now error m,
  record_failure breaker_config now (is_connection_error error) b,
)

unfoldable pub is_healthy : Monitor → Bool
is_healthy m = same_status m.status healthy

unfoldable pub is_unhealthy : Monitor → Bool
is_unhealthy m = same_status m.status unhealthy

unfoldable pub reset : ℕ → Monitor → Monitor
reset now m = record m {
  status = unknown;
  consecutive_successes = 0;
  consecutive_failures = 0;
  last_check = none;
  last_status_change = now;
  recent_response_times = [];
}

unfoldable pub mark_healthy : MonitorConfig → ℕ → Monitor → Monitor
mark_healthy config now m =
    change_status now healthy
      (record m { consecutive_successes = config.healthy_threshold; consecutive_failures = 0 })
