-- ===== src/Redis/Health.antt =====
-- Courses of the health monitor of the shared cache (src/services/cache/cache-health-monitor.ts).
use authentication_v.Base.{
  ℕ, ◌+◌, ◌-◌, ◌<◌, ◌≤◌, ◌≡◌, ◌⊎◌, inl, refl, Option, none, some, String, List, [], ◌∷◌, ◌++◌,
  arith,
}
use authentication_v.Breaker.Cache.{CacheBreaker, CacheBreakerConfig}
use authentication_v.Redis.Monitor.{
  healthy, unhealthy, MonitorConfig, Monitor, new, push_sample, length, note_success, note_failure,
  perform_health_check, mark_healthy, reset,
}

-- What happens to a monitor: a check, by how its ping ended and when it began and ended, a reconnection,
-- or a reset.
pub data Event : Type 0 where
  checked : ℕ → ℕ → Option String → Event
  reconnected : ℕ → Event
  restarted : ℕ → Event

unfoldable pub handle :
    MonitorConfig → CacheBreakerConfig → Event → Monitor × CacheBreaker → Monitor × CacheBreaker
unfolding perform_health_check mark_healthy reset
handle config breaker_config (checked start_time now error) s =
    perform_health_check config breaker_config start_time now error s
handle config breaker_config (reconnected now) (m, b) = (mark_healthy config now m, b)
handle config breaker_config (restarted now) (m, b) = (reset now m, b)

unfoldable pub handle_all :
    MonitorConfig
    → CacheBreakerConfig
    → List Event
    → Monitor × CacheBreaker
    → Monitor × CacheBreaker
unfolding handle
handle_all config breaker_config [] s = s
handle_all config breaker_config (e ∷ es) s =
    handle_all config breaker_config es (handle config breaker_config e s)

-- The status agrees with the counts: a run of checks that has reached its threshold decides it, a run
-- that ends it has not, and only one run is going on. At most ten times are kept.
pub record IsSound (config : MonitorConfig) (m : Monitor) : Type 0 where
  pub one_run : (m.consecutive_successes ≡ 0) ⊎ (m.consecutive_failures ≡ 0)
  pub failing : config.unhealthy_threshold ≤ m.consecutive_failures → m.status ≡ unhealthy
  pub succeeding : config.healthy_threshold ≤ m.consecutive_successes → m.status ≡ healthy
  pub still_healthy : m.status ≡ healthy → m.consecutive_failures < config.unhealthy_threshold
  pub still_unhealthy : m.status ≡ unhealthy → m.consecutive_successes < config.healthy_threshold
  pub samples : length m.recent_response_times ≤ 10

length-push : (xs : List ℕ) (x : ℕ) → length (xs ++ (x ∷ [])) ≡ length xs + 1
length-push [] x = refl
length-push (y ∷ xs) x = omega (arith, length-push xs x)

length-push_sample : (x : ℕ) (xs : List ℕ) → length xs ≤ 10 → length (push_sample x xs) ≤ 10
unfolding push_sample
length-push_sample x [] h = omega arith
length-push_sample x (y ∷ xs) h = ground (arith, h, length-push xs x)

module _ (config : MonitorConfig) (some_failures : 0 < config.unhealthy_threshold)
    (some_successes : 0 < config.healthy_threshold) where
  note_success-IsSound :
      (start_time now : ℕ) (m : Monitor)
      → IsSound config m
      → IsSound config (note_success config start_time now m)
  unfolding note_success
  note_success-IsSound start_time now m h = record {
    one_run = ground arith;
    failing = ground arith;
    succeeding = ground arith;
    still_healthy = ground arith;
    still_unhealthy = ground arith;
    samples =
        ground (arith, length-push_sample (now - start_time) m.recent_response_times h.samples);
  }

  note_failure-IsSound :
      (start_time now : ℕ) (error : String) (m : Monitor)
      → IsSound config m
      → IsSound config (note_failure config start_time now error m)
  unfolding note_failure
  note_failure-IsSound start_time now error m h = record {
    one_run = ground arith;
    failing = ground arith;
    succeeding = ground arith;
    still_healthy = ground arith;
    still_unhealthy = ground arith;
    samples = ground (arith, h.samples);
  }

  mark_healthy-IsSound :
      (now : ℕ) (m : Monitor) → IsSound config m → IsSound config (mark_healthy config now m)
  unfolding mark_healthy
  mark_healthy-IsSound now m h = record {
    one_run = ground arith;
    failing = ground arith;
    succeeding = ground arith;
    still_healthy = ground arith;
    still_unhealthy = ground arith;
    samples = ground (arith, h.samples);
  }

  reset-IsSound : (now : ℕ) (m : Monitor) → IsSound config (reset now m)
  unfolding reset
  reset-IsSound now m = record {
    one_run = inl refl;
    failing = ground arith;
    succeeding = ground arith;
    still_healthy = ground arith;
    still_unhealthy = ground arith;
    samples = omega arith;
  }

  handle-IsSound :
      (breaker_config : CacheBreakerConfig) (e : Event) (s : Monitor × CacheBreaker)
      → IsSound config s.0
      → IsSound config (handle config breaker_config e s).0
  unfolding handle perform_health_check
  handle-IsSound breaker_config (checked start_time now none) (m, b) h =
      note_success-IsSound start_time now m h
  handle-IsSound breaker_config (checked start_time now (some error)) (m, b) h =
      note_failure-IsSound start_time now error m h
  handle-IsSound breaker_config (reconnected now) (m, b) h = mark_healthy-IsSound now m h
  handle-IsSound breaker_config (restarted now) (m, b) h = reset-IsSound now m

  handle_all-IsSound :
      (breaker_config : CacheBreakerConfig) (es : List Event) (s : Monitor × CacheBreaker)
      → IsSound config s.0
      → IsSound config (handle_all config breaker_config es s).0
  unfolding handle_all
  handle_all-IsSound breaker_config [] s h = h
  handle_all-IsSound breaker_config (e ∷ es) s h =
      handle_all-IsSound breaker_config es (handle config breaker_config e s)
        (handle-IsSound breaker_config e s h)

  -- After any course of checks, reconnections and resets of a new monitor whose two thresholds are not 0:
  -- successes and failures are not both counted; as many failures in a row as the one threshold make it
  -- unhealthy and as many successes as the other make it healthy; a healthy monitor has counted fewer
  -- failures than that, an unhealthy one fewer successes; and at most ten response times are kept.
  pub course-IsSound :
      (breaker_config : CacheBreakerConfig) (started : ℕ) (b : CacheBreaker) (es : List Event)
      → IsSound config (handle_all config breaker_config es (new started, b)).0
  unfolding new
  course-IsSound breaker_config started b es =
      handle_all-IsSound breaker_config es (new started, b)
        (record {
          one_run = inl refl;
          failing = ground arith;
          succeeding = ground arith;
          still_healthy = ground arith;
          still_unhealthy = ground arith;
          samples = omega arith;
        })
