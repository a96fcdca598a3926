-- ===== src/Breaker/Agreement.antt =====
-- The cache breaker seen as a telemetry breaker.
use authentication_v.Base.{ℕ, ◌≡◌, refl, ap, ap₂, ◌∙◌, Bool, true, false, List, [], ◌∷◌, arith}
use authentication_v.Breaker.Telemetry
use authentication_v.Breaker.Telemetry.{BreakerConfig, Breaker}
use authentication_v.Breaker.Cache
use authentication_v.Breaker.Cache.{CacheBreakerConfig, CacheBreaker}
use authentication_v.Breaker.Threshold
use authentication_v.Breaker.CacheThreshold

-- The telemetry breaker with the same counters; its monitoring interval is off.
abbrev pub view : CacheBreaker → Breaker
view b = record {
  state = b.state;
  failure_count = b.failure_count;
  success_count = b.success_count;
  last_failure_time = b.last_failure_time;
  last_success_time = b.last_success_time;
  total_requests = b.total_requests;
  rejected_requests = b.rejected_requests;
  last_state_change = b.last_state_change;
  half_open_successes = b.half_open_successes;
  monitoring = false;
}

abbrev pub view_config : CacheBreakerConfig → BreakerConfig
view_config config = record {
  failure_threshold = config.failure_threshold;
  recovery_timeout = config.reset_timeout;
  success_threshold = config.success_threshold;
  monitoring_interval = 0;
}

-- The same calls, without the errors that the cache's breaker does not count.
abbrev pub view_calls : List (ℕ × Cache.Call) → List (ℕ × Telemetry.Call)
view_calls [] = []
view_calls ((now, Cache.Call.ask) ∷ cs) = (now, Telemetry.Call.ask) ∷ view_calls cs
view_calls ((now, Cache.Call.succeeded) ∷ cs) = (now, Telemetry.Call.succeeded) ∷ view_calls cs
view_calls ((now, Cache.Call.failed true) ∷ cs) = (now, Telemetry.Call.failed) ∷ view_calls cs
view_calls ((now, Cache.Call.failed false) ∷ cs) = view_calls cs
view_calls ((now, Cache.Call.restart) ∷ cs) = (now, Telemetry.Call.restart) ∷ view_calls cs

-- The answers of `canExecute` along a run, in order.
unfoldable pub cache_answers : CacheBreakerConfig → List (ℕ × Cache.Call) → CacheBreaker → List Bool
cache_answers config [] b = []
cache_answers config ((now, Cache.Call.ask) ∷ cs) b =
    (Cache.can_execute config now b).1
    ∷ cache_answers config cs (Cache.step config b (now, Cache.Call.ask))
cache_answers config (c ∷ cs) b = cache_answers config cs (Cache.step config b c)

unfoldable pub telemetry_answers : BreakerConfig → List (ℕ × Telemetry.Call) → Breaker → List Bool
telemetry_answers config [] b = []
telemetry_answers config ((now, Telemetry.Call.ask) ∷ cs) b =
    (Telemetry.can_execute config now b).1
    ∷ telemetry_answers config cs (Telemetry.step config b (now, Telemetry.Call.ask))
telemetry_answers config (c ∷ cs) b = telemetry_answers config cs (Telemetry.step config b c)

view-step :
    (config : CacheBreakerConfig) (b : CacheBreaker) (now : ℕ)
    → config.enabled ≡ true
    → (view (Cache.step config b (now, Cache.Call.ask))
        ≡ Telemetry.step (view_config config) (view b) (now, Telemetry.Call.ask))
      × (view (Cache.step config b (now, Cache.Call.succeeded))
          ≡ Telemetry.step (view_config config) (view b) (now, Telemetry.Call.succeeded))
      × (view (Cache.step config b (now, Cache.Call.failed true))
          ≡ Telemetry.step (view_config config) (view b) (now, Telemetry.Call.failed))
      × (Cache.step config b (now, Cache.Call.failed false) ≡ b)
      × (view (Cache.step config b (now, Cache.Call.restart))
          ≡ Telemetry.step (view_config config) (view b) (now, Telemetry.Call.restart))
unfolding Cache.step Telemetry.step
view-step config b now on = (ground arith, ground arith, ground arith, ground arith, ground arith)

view-can_execute :
    (config : CacheBreakerConfig) (b : CacheBreaker) (now : ℕ)
    → config.enabled ≡ true
    → (Cache.can_execute config now b).1
      ≡ (Telemetry.can_execute (view_config config) now (view b)).1
unfolding Cache.can_execute Telemetry.can_execute
view-can_execute config b now on = ground arith

view-run :
    (config : CacheBreakerConfig) (cs : List (ℕ × Cache.Call)) (b : CacheBreaker)
    → config.enabled ≡ true
    → view (CacheThreshold.run config cs b)
      ≡ Threshold.run (view_config config) (view_calls cs) (view b)
unfolding CacheThreshold.run Threshold.run
view-run config [] b on = refl
view-run config ((now, Cache.Call.ask) ∷ cs) b on =
    view-run config cs _ on
    ∙ ap (Threshold.run (view_config config) (view_calls cs)) (view-step config b now on).0
view-run config ((now, Cache.Call.succeeded) ∷ cs) b on =
    view-run config cs _ on
    ∙ ap (Threshold.run (view_config config) (view_calls cs)) (view-step config b now on).1
view-run config ((now, Cache.Call.failed true) ∷ cs) b on =
    view-run config cs _ on
    ∙ ap (Threshold.run (view_config config) (view_calls cs)) (view-step config b now on).2
view-run config ((now, Cache.Call.failed false) ∷ cs) b on =
    ap (λ b'. view (CacheThreshold.run config cs b')) (view-step config b now on).3
    ∙ view-run config cs b on
view-run config ((now, Cache.Call.restart) ∷ cs) b on =
    view-run config cs _ on
    ∙ ap (Threshold.run (view_config config) (view_calls cs)) (view-step config b now on).4

view-answers :
    (config : CacheBreakerConfig) (cs : List (ℕ × Cache.Call)) (b : CacheBreaker)
    → config.enabled ≡ true
    → cache_answers config cs b ≡ telemetry_answers (view_config config) (view_calls cs) (view b)
unfolding cache_answers telemetry_answers
view-answers config [] b on = refl
view-answers config ((now, Cache.Call.ask) ∷ cs) b on = ap₂ ◌∷◌ (view-can_execute config b now on) (
    view-answers config cs _ on
    ∙ ap (telemetry_answers (view_config config) (view_calls cs)) (view-step config b now on).0)
view-answers config ((now, Cache.Call.succeeded) ∷ cs) b on =
    view-answers config cs _ on
    ∙ ap (telemetry_answers (view_config config) (view_calls cs)) (view-step config b now on).1
view-answers config ((now, Cache.Call.failed true) ∷ cs) b on =
    view-answers config cs _ on
    ∙ ap (telemetry_answers (view_config config) (view_calls cs)) (view-step config b now on).2
view-answers config ((now, Cache.Call.failed false) ∷ cs) b on =
    rw (view-step config b now on).3 (view-answers config cs b on)
view-answers config ((now, Cache.Call.restart) ∷ cs) b on =
    view-answers config cs _ on
    ∙ ap (telemetry_answers (view_config config) (view_calls cs)) (view-step config b now on).4

-- An enabled cache breaker and a telemetry breaker with the same thresholds and the same timeout,
-- started in the same state, give the same answers to the same requests and end with the same
-- counters, whatever calls are made; errors that are not connection errors count for neither.
pub cache_agrees :
    (config : CacheBreakerConfig) (cs : List (ℕ × Cache.Call)) (b : CacheBreaker)
    → config.enabled ≡ true
    → (cache_answers config cs b ≡ telemetry_answers (view_config config) (view_calls cs) (view b))
      × (view (CacheThreshold.run config cs b)
          ≡ Threshold.run (view_config config) (view_calls cs) (view b))
cache_agrees config cs b on = (view-answers config cs b on, view-run config cs b on)
