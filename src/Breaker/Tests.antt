-- ===== src/Breaker/Tests.antt =====
-- Runs of the two breakers (src/telemetry/telemetry-circuit-breaker.ts and
-- src/services/cache/cache-circuit-breaker.ts) on given calls.
use authentication_v.Base.{ℕ, ◌≡◌, refl, true, false, List, [], ◌∷◌, arith}
use authentication_v.Breaker.State.{closed, opened, half_open}
use authentication_v.Breaker.Telemetry.{BreakerConfig, Breaker, Call, new, step}
use authentication_v.Breaker.Cache
use authentication_v.Breaker.Cache.{CacheBreakerConfig, CacheBreaker, get_time_until_recovery_ms}
use authentication_v.Breaker.Threshold.{
  IsUsable, IsSound, run, failures, successes, run-IsSound, opens_at_threshold,
  recovers_at_threshold,
}
use authentication_v.Breaker.CacheThreshold
use authentication_v.Breaker.CacheThreshold.{run-closed, can_execute-refuses_iff_waiting}
use authentication_v.Breaker.Agreement.{
  view, view_config, view_calls, cache_answers, telemetry_answers, cache_agrees,
}

abbrev small : BreakerConfig
small = record {
  failure_threshold = 3;
  recovery_timeout = 60;
  success_threshold = 2;
  monitoring_interval = 10;
}

-- A breaker that opened at 100 after three failures.
abbrev tripped : Breaker
tripped = record {
  state = opened;
  failure_count = 3;
  success_count = 0;
  last_failure_time = 100;
  last_success_time = 0;
  total_requests = 3;
  rejected_requests = 0;
  last_state_change = 100;
  half_open_successes = 0;
  monitoring = true;
}

small-IsUsable : IsUsable small
small-IsUsable = record { failures = omega arith; successes = omega arith }

tripped-IsSound : IsSound small tripped
tripped-IsSound = ground arith

trips : (run small (failures (80 ∷ 90 ∷ 100 ∷ [])) (new 0)).state ≡ opened
unfolding run new step
trips = refl

run-IsSound_example :
    IsSound small (run small ((5, Call.ask) ∷ failures (80 ∷ 90 ∷ 100 ∷ [])) (new 0))
run-IsSound_example =
    run-IsSound small 0 ((5, Call.ask) ∷ failures (80 ∷ 90 ∷ 100 ∷ [])) small-IsUsable

opens_at_threshold_example : (run small (failures (80 ∷ 90 ∷ 100 ∷ [])) (new 0)).state ≡ opened
unfolding new
opens_at_threshold_example =
    opens_at_threshold small (80 ∷ 90 ∷ 100 ∷ []) (new 0) refl (omega arith)

recovers_at_threshold_example :
    (run small ((160, Call.ask) ∷ successes (170 ∷ 180 ∷ [])) tripped).state ≡ closed
recovers_at_threshold_example =
    recovers_at_threshold small 160 (170 ∷ 180 ∷ []) tripped small-IsUsable tripped-IsSound refl
      (omega arith)

abbrev probing : Breaker
probing = record tripped { state = half_open }

abbrev cache_small : CacheBreakerConfig
cache_small = record {
  enabled = true;
  failure_threshold = 2;
  reset_timeout = 50;
  success_threshold = 1;
}

abbrev cache_tripped : CacheBreaker
cache_tripped = record {
  state = opened;
  failure_count = 2;
  success_count = 0;
  last_failure_time = 100;
  last_success_time = 0;
  total_requests = 2;
  rejected_requests = 0;
  last_state_change = 100;
  half_open_successes = 0;
}

abbrev mixed_calls : List (ℕ × Cache.Call)
mixed_calls =
    (110, Cache.Call.ask)
    ∷ (120, Cache.Call.failed false)
    ∷ (155, Cache.Call.ask)
    ∷ (160, Cache.Call.failed true)
    ∷ (170, Cache.Call.ask)
    ∷ []

cache_agrees_example :
    (cache_answers cache_small mixed_calls cache_tripped
      ≡ telemetry_answers (view_config cache_small) (view_calls mixed_calls) (view cache_tripped))
    × (view (CacheThreshold.run cache_small mixed_calls cache_tripped)
        ≡ run (view_config cache_small) (view_calls mixed_calls) (view cache_tripped))
cache_agrees_example = cache_agrees cache_small mixed_calls cache_tripped refl
