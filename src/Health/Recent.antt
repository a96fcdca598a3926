-- ===== src/Health/Recent.antt =====
-- On which check of the cache an answer of /health rests, along any requests.
use authentication_v.Base.{ℕ, true, false, ◌≢◌, ◌+◌, ◌<◌, ◌≡◌, ◌⊎◌, some, List, [], ◌∷◌}
use authentication_v.Redis.Timeout.{fulfilled, failed}
use authentication_v.Health.Cache.{
  Probe, no_client, rejected, replied, CacheStatus, healthy, unhealthy, degraded, CacheHealthResult,
  CacheHealthService, new, cleanup, measure,
}
use authentication_v.Health.Status.{HealthStatusResult, Request, handle_health_check}

-- A request for /health, or `cleanup`.
pub data Call : Type 0 where
  asked : Request → Call
  cleaned : Call

abbrev pub step : Call → CacheHealthService → CacheHealthService
step (asked q) s = (handle_health_check q s).1
step cleaned s = cleanup s

-- The calls, the latest first.
unfoldable pub run : List Call → CacheHealthService
run [] = new
run (c ∷ past) = step c (run past)

-- The request is among the calls.
abbrev pub IsAmong : Request → List Call → Type 0
IsAmong q [] = ⊥
IsAmong q (asked q' ∷ past) = (q ≡ q') ⊎ IsAmong q past
IsAmong q (cleaned ∷ past) = IsAmong q past

abbrev pub measured : Request → CacheHealthResult
measured q = measure q.high_availability q.time q.probe

-- The result is what the probe of a request among the calls shows, which came at the given time.
abbrev pub IsFrom : List Call → CacheHealthResult → ℕ → Type 0
IsFrom past result time = (q : Request) × IsAmong q past × (result ≡ measured q) × (q.now ≡ time)

Keeps : List Call → CacheHealthService → Type 0
Keeps past s =
    (last : CacheHealthResult)
    → s.last_health_check ≡ some last
    → IsFrom past last s.last_check_time

-- The answer comes from a request whose probe is recent enough, and what is kept from one of the calls.
IsFresh : List Call → Request → CacheHealthResult × CacheHealthService → Type 0
IsFresh past q (result, after) =
    Keeps (asked q ∷ past) after
    × ((q' : Request) × IsAmong q' (asked q ∷ past)
        × (q.now < q'.now + 2000)
        × (result ≡ measured q'))

-- The probe shows that the server does not answer: PING is rejected or late, has another reply than PONG, or
-- the question for the type of the server fails.
abbrev pub Fails : Probe → Type 0
Fails no_client = ⊥
Fails rejected = Unit
Fails (replied reply (failed e)) = Unit
Fails (replied reply (fulfilled server)) = reply ≢ "PONG"

-- Redis is in use, and its probe fails.
abbrev pub IsDown : Request → Type 0
IsDown q = (q.high_availability ≡ true) × Fails q.probe

-- Redis is in use, and its stale tier does not answer.
abbrev pub HasNoStale : Request → Type 0
HasNoStale q = (q.high_availability ≡ true) × (q.stale_resolves ≡ false)

-- Kong and the three endpoints of the telemetry are healthy.
abbrev pub IsFine : Request → Type 0
IsFine q =
    (q.kong_healthy ≡ true)
    × (q.traces_healthy ≡ true)
    × (q.metrics_healthy ≡ true)
    × (q.logs_healthy ≡ true)

-- The answer to a request that rests on the probe of `by`.
abbrev pub Answers : Request → Request → HealthStatusResult → Type 0
Answers q by r =
    ((r.http_status ≡ 503) × (r.health_status ≡ unhealthy) × IsDown by × HasNoStale q)
    ⊎ ((r.http_status ≡ 200)
        × (r.health_status ≡ degraded)
        × ¬ (IsDown by × HasNoStale q)
        × (IsDown by ⊎ ¬ IsFine q))
    ⊎ ((r.http_status ≡ 200) × (r.health_status ≡ healthy) × ¬ IsDown by × IsFine q)

-- What a check finds: unhealthy where Redis is down, and healthy elsewhere.
Shows : Request → CacheStatus → Type 0
Shows q status = ((status ≡ unhealthy) × IsDown q) ⊎ ((status ≡ healthy) × ¬ IsDown q)
