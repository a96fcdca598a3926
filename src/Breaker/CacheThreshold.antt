-- ===== src/Breaker/CacheThreshold.antt =====
-- The courses of the cache's breaker.
use authentication_v.Base.{ℕ, ◌<◌, ◌≡◌, ◌↔◌, ◌≢◌, true, false, List, [], ◌∷◌, arith}
use authentication_v.Breaker.State.{closed}
use authentication_v.Breaker.Cache.{
  CacheBreakerConfig, CacheBreaker, Call, ask, succeeded, failed, restart, can_execute,
  get_time_until_recovery_ms, step,
}

unfoldable pub run : CacheBreakerConfig → List (ℕ × Call) → CacheBreaker → CacheBreaker
run config [] b = b
run config (c ∷ cs) b = run config cs (step config b c)

-- No call of the list reports a connection error.
abbrev pub HasNoConnectionError : List (ℕ × Call) → Type 0
HasNoConnectionError [] = Unit
HasNoConnectionError ((now, failed true) ∷ cs) = ⊥
HasNoConnectionError ((now, _) ∷ cs) = HasNoConnectionError cs

step_keeps_closed :
    (config : CacheBreakerConfig) (b : CacheBreaker) (now : ℕ) (c : Call)
    → c ≢ failed true
    → b.state ≡ closed
    → (step config b (now, c)).state ≡ closed
unfolding step
step_keeps_closed config b now c n h = ground arith

-- However many calls are made, at whatever times, a closed breaker stays closed as long as none of
-- them reports a connection error.
pub run-closed :
    (config : CacheBreakerConfig) (cs : List (ℕ × Call)) (b : CacheBreaker)
    → HasNoConnectionError cs
    → b.state ≡ closed
    → (run config cs b).state ≡ closed
unfolding run
run-closed config [] b n h = h
run-closed config ((now, ask) ∷ cs) b n h =
    run-closed config cs (step config b (now, ask)) n
      (step_keeps_closed config b now ask (λ e. cc) h)
run-closed config ((now, succeeded) ∷ cs) b n h =
    run-closed config cs (step config b (now, succeeded)) n
      (step_keeps_closed config b now succeeded (λ e. cc) h)
run-closed config ((now, failed true) ∷ cs) b n h = absurd n
run-closed config ((now, failed false) ∷ cs) b n h =
    run-closed config cs (step config b (now, failed false)) n
      (step_keeps_closed config b now (failed false) (λ e. cc) h)
run-closed config ((now, restart) ∷ cs) b n h =
    run-closed config cs (step config b (now, restart)) n
      (step_keeps_closed config b now restart (λ e. cc) h)

-- An enabled breaker refuses a request exactly when it is open and the time until recovery that it
-- reports is not 0; a disabled one refuses none.
pub can_execute-refuses_iff_waiting :
    (config : CacheBreakerConfig) (now : ℕ) (b : CacheBreaker)
    → ((can_execute config now b).1 ≡ false)
      ↔ ((config.enabled ≡ true) × (0 < get_time_until_recovery_ms config now b))
unfolding can_execute get_time_until_recovery_ms
can_execute-refuses_iff_waiting config now b = (λ h. ground arith, λ h. ground arith)
