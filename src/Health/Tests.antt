-- ===== src/Health/Tests.antt =====
-- Runs of /health (src/handlers/health.ts) on given requests.
use authentication_v.Base.{ℕ, ◌≡◌, refl, true, false, List, [], ◌∷◌}
use authentication_v.Health.Cache.{
  Probe, no_client, rejected, unhealthy, healthy, check_redis_health,
}
use authentication_v.Health.Cache
use authentication_v.Health.Status.{Request, determine_health_status, handle_health_check}
use authentication_v.Health.Recent.{Call, asked, cleaned, run}

abbrev request : ℕ → Probe → Request
request now probe = record {
  high_availability = true;
  now = now;
  time = "1ms";
  probe = probe;
  stale_resolves = false;
  kong_healthy = true;
  traces_healthy = true;
  metrics_healthy = true;
  logs_healthy = true;
}

abbrev past : List Call
past = asked (request 5000 rejected) ∷ cleaned ∷ asked (request 4000 no_client) ∷ []

-- The failure of the earlier probe is answered, and then forgotten.
failure_kept :
    ((handle_health_check (request 6500 no_client) (run past)).0.http_status ≡ 503)
    × ((handle_health_check (request 7500 no_client) (run past)).0.http_status ≡ 200)
unfolding run handle_health_check determine_health_status Cache.check_cache_health Cache.measure
    check_redis_health
failure_kept = (refl, refl)
