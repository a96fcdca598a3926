-- ===== src/Health/Status.antt =====
-- How the handler of /health (src/handlers/health.ts) finds its status, with `determineHealthStatus` of
-- src/handlers/health-status.ts. The check of the cache, which does not throw, and the probes are one step.
use authentication_v.Base.{ℕ, Bool, true, false, ◌&&◌, not, String, if◌then◌else◌}
use authentication_v.Health.Cache.{
  CacheStatus, healthy, unhealthy, degraded, CacheHealthResult, Probe, CacheHealthService,
  check_cache_health,
}

pub record HealthStatusDeps : Type 0 where
  pub kong_healthy : Bool
  pub cache_status : CacheStatus
  pub stale_cache_available : Bool
  pub traces_healthy : Bool
  pub metrics_healthy : Bool
  pub logs_healthy : Bool

-- `healthStatus` has the words of the status of a cache.
pub record HealthStatusResult : Type 0 where
  pub http_status : ℕ
  pub health_status : CacheStatus

abbrev pub is_healthy : CacheStatus → Bool
is_healthy healthy = true
is_healthy unhealthy = false
is_healthy degraded = false

abbrev pub is_unhealthy : CacheStatus → Bool
is_unhealthy healthy = false
is_unhealthy unhealthy = true
is_unhealthy degraded = false

unfoldable pub determine_health_status : HealthStatusDeps → HealthStatusResult
determine_health_status deps =
    let cache_critical = is_unhealthy deps.cache_status && not deps.stale_cache_available in
    let telemetry_healthy = deps.traces_healthy && deps.metrics_healthy && deps.logs_healthy in
    let all_healthy = deps.kong_healthy && is_healthy deps.cache_status && telemetry_healthy in
    if cache_critical
    then record { http_status = 503; health_status = unhealthy }
    else record { http_status = 200; health_status = if all_healthy then healthy else degraded }

-- A request: the mode of the service, the time of the check, the texts and the probe that it meets, whether
-- getStale resolves, and what the other checks find.
pub record Request : Type 0 where
  pub high_availability : Bool
  pub now : ℕ
  pub time : String
  pub probe : Probe
  pub stale_resolves : Bool
  pub kong_healthy : Bool
  pub traces_healthy : Bool
  pub metrics_healthy : Bool
  pub logs_healthy : Bool

-- The stale tier is probed with high availability, and taken for available without.
abbrev pub deps_of : Request → CacheHealthResult → HealthStatusDeps
deps_of q result = record {
  kong_healthy = q.kong_healthy;
  cache_status = result.status;
  stale_cache_available = if q.high_availability then q.stale_resolves else true;
  traces_healthy = q.traces_healthy;
  metrics_healthy = q.metrics_healthy;
  logs_healthy = q.logs_healthy;
}

unfoldable pub handle_health_check :
    Request → CacheHealthService → HealthStatusResult × CacheHealthService
unfolding determine_health_status check_cache_health
handle_health_check q s =
    let (result, after) = check_cache_health q.high_availability q.now q.time q.probe s in
    (determine_health_status (deps_of q result), after)
