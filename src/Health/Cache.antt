-- ===== src/Health/Cache.antt =====
-- `CacheHealthService` of src/services/cache-health.service.ts, without its log lines. A probe is what the
-- Redis client answers within the second that it has.
use authentication_v.Base.{ℕ, ◌-◌, Bool, Option, none, some, String, ltb, str_eq, if◌then◌else◌}
use authentication_v.Redis.Timeout.{Settled, fulfilled, failed}

pub data CacheStatus : Type 0 where
  healthy unhealthy degraded : CacheStatus

pub data CacheType : Type 0 where
  redis memory : CacheType

-- `CacheHealthResult`
pub record CacheHealthResult : Type 0 where
  pub status : CacheStatus
  pub type_of_cache : CacheType
  pub server_type : Option String
  pub response_time : String

-- There is no client; PING is rejected, or is late; or it has a reply, and then `getServerType` has its own.
pub data Probe : Type 0 where
  no_client : Probe
  rejected : Probe
  replied : String → Settled (Option String) → Probe

abbrev pub server_type_or : Option String → String
server_type_or none = "redis"
server_type_or (some s) = if str_eq s "" then "redis" else s

abbrev pub redis_result : CacheStatus → String → String → CacheHealthResult
redis_result status server time = record {
  status = status;
  type_of_cache = redis;
  server_type = some server;
  response_time = time;
}

unfoldable pub check_redis_health : String → Probe → CacheHealthResult
check_redis_health time no_client = redis_result healthy "redis" time
check_redis_health time rejected = redis_result unhealthy "redis" time
check_redis_health time (replied reply (failed e)) = redis_result unhealthy "redis" time
check_redis_health time (replied reply (fulfilled server)) =
    if str_eq reply "PONG"
    then redis_result healthy (server_type_or server) time
    else redis_result unhealthy "redis" time

unfoldable pub check_memory_health : String → CacheHealthResult
check_memory_health time = record {
  status = healthy;
  type_of_cache = memory;
  server_type = none;
  response_time = time;
}

pub record CacheHealthService : Type 0 where
  pub last_health_check : Option CacheHealthResult
  pub last_check_time : ℕ

abbrev pub new : CacheHealthService
new = record { last_health_check = none; last_check_time = 0 }

abbrev pub cache_ttl_ms : ℕ
cache_ttl_ms = 2000

-- What a check finds where it does not answer from the result that is kept.
unfoldable pub measure : Bool → String → Probe → CacheHealthResult
unfolding check_redis_health check_memory_health
measure high_availability time probe =
    if high_availability then check_redis_health time probe else check_memory_health time

abbrev pub check_again : ℕ → CacheHealthResult → CacheHealthResult × CacheHealthService
check_again now result = (result, record { last_health_check = some result; last_check_time = now })

abbrev pub check_after :
    Option CacheHealthResult
    → ℕ
    → CacheHealthResult
    → CacheHealthService
    → CacheHealthResult × CacheHealthService
check_after none now result s = check_again now result
check_after (some last) now result s =
    if ltb (now - s.last_check_time) cache_ttl_ms then (last, s) else check_again now result

unfoldable pub check_cache_health :
    Bool → ℕ → String → Probe → CacheHealthService → CacheHealthResult × CacheHealthService
unfolding measure
check_cache_health high_availability now time probe s =
    check_after s.last_health_check now (measure high_availability time probe) s

abbrev pub cleanup : CacheHealthService → CacheHealthService
cleanup s = new
