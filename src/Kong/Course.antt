-- ===== src/Kong/Course.antt =====
-- The courses that a service can take, and the bounds on its data along them.
use authentication_v.Base.{
  ℕ, ◌≤◌, ◌≡◌, refl, Bool, Option, String, List, [], ◌∷◌, arith, Bool-cases, sym, subst, ◌⊎◌, inl,
  inr,
}
use authentication_v.Base.Dict.{
  Dict, get, delete, size, HasDistinctKeys, has-delete, delete-HasDistinctKeys, size-delete-le,
}
use authentication_v.Kong.Types.{ConsumerSecret, StaleEntry, Outcome, Fire, RedisAnswer}
use authentication_v.Kong.Service.{
  Service, ServiceConfig, new, get_or_create_breaker, stale_data_tolerance_ms,
}
use authentication_v.Kong.Operations.{wrap_kong_operation, wrap_kong_consumer_operation}
use authentication_v.Kong.Upkeep.{
  cleanup_unused_breakers, cleanup_expired_stale_entries, clear_stale_cache, shutdown, delete_keys,
  expired_keys, remove_breaker, remove_breakers, unused_names,
}
use authentication_v.Kong.Bounds.{
  HasBoundedStale, HasTrackedBreakers, create_keeps, create_tracks, consumer_keeps, consumer_tracks,
}

abbrev pub KeepsBoth : Service → Service → Type 0
KeepsBoth s s' =
    (HasBoundedStale s → HasBoundedStale s') × (HasTrackedBreakers s → HasTrackedBreakers s')

plain_keeps :
    {A : Type 0} (now : ℕ) (operation : String) (action : Outcome A) (fire : Fire A)
    (fallback : Option A) (s : Service)
    → KeepsBoth s (wrap_kong_operation now operation action fire fallback s).0
plain_keeps now operation action fire fallback s = elim (Bool-cases s.config.enabled) [
  | inl on ↦
      let e : (wrap_kong_operation now operation action fire fallback s).0
          ≡ get_or_create_breaker now operation s =
        unfold wrap_kong_operation in ground arith in
      (
        λ h. subst HasBoundedStale (sym e) (create_keeps now operation s h),
        λ h. subst HasTrackedBreakers (sym e) (create_tracks now operation s h),
      )
  | inr off ↦
      let e : (wrap_kong_operation now operation action fire fallback s).0 ≡ s =
        unfold wrap_kong_operation in ground arith in
      (λ h. subst HasBoundedStale (sym e) h, λ h. subst HasTrackedBreakers (sym e) h)
]

remove_state :
    (name : String) (s : Service)
    → (remove_breaker name s ≡ s)
      ⊎ (remove_breaker name s
          ≡ record s { breakers = delete name s.breakers; last_used = delete name s.last_used })
unfolding remove_breaker
remove_state name s = ground arith

forget_keeps :
    (name : String) (s : Service)
    → KeepsBoth s
        (record s { breakers = delete name s.breakers; last_used = delete name s.last_used })
forget_keeps name s = (
  λ h. record { distinct = h.distinct; bounded = h.bounded },
  λ h q.
      let left = has-delete name q s.breakers in
      let right = has-delete name q s.last_used in ground (arith, h q),
)

remove_one_keeps : (name : String) (s : Service) → KeepsBoth s (remove_breaker name s)
remove_one_keeps name s = elim (remove_state name s) [
  | inl same ↦ subst (KeepsBoth s) (sym same) (λ h. h, λ h. h)
  | inr less ↦ subst (KeepsBoth s) (sym less) (forget_keeps name s)
]

remove_keeps : (names : List String) (s : Service) → KeepsBoth s (remove_breakers names s)
unfolding remove_breakers
remove_keeps [] s = (λ h. h, λ h. h)
remove_keeps (name ∷ names) s =
    let (stale, tracked) = remove_one_keeps name s in
    let (stale_rest, tracked_rest) = remove_keeps names (remove_breaker name s) in
    (λ h. stale_rest (stale h), λ h. tracked_rest (tracked h))

delete_keys_keeps :
    (keys : List String) (m : Dict StaleEntry)
    → HasDistinctKeys m
    → HasDistinctKeys (delete_keys keys m) × (size (delete_keys keys m) ≤ size m)
unfolding delete_keys
delete_keys_keeps [] m d = (d, omega arith)
delete_keys_keeps (key ∷ keys) m d =
    let (rest, fewer) = delete_keys_keeps keys (delete key m) (delete-HasDistinctKeys key m d) in
    (rest, omega (arith, size-delete-le key m))

unused_state :
    (now : ℕ) (s : Service)
    → (cleanup_unused_breakers now s ≡ s)
      ⊎ (cleanup_unused_breakers now s ≡ remove_breakers (unused_names now s.last_used) s)
unfolding cleanup_unused_breakers
unused_state now s = ground arith

unused_keeps : (now : ℕ) (s : Service) → KeepsBoth s (cleanup_unused_breakers now s)
unused_keeps now s = elim (unused_state now s) [
  | inl same ↦ subst (KeepsBoth s) (sym same) (λ h. h, λ h. h)
  | inr less ↦ subst (KeepsBoth s) (sym less) (remove_keeps (unused_names now s.last_used) s)
]

expired_state :
    (now : ℕ) (s : Service)
    → (cleanup_expired_stale_entries now s ≡ s)
      ⊎ ((keys : List String) × (cleanup_expired_stale_entries now s
            ≡ record s { stale_cache = delete_keys keys s.stale_cache }))
unfolding cleanup_expired_stale_entries
expired_state now s = elim (Bool-cases s.is_shutting_down) [
  | inl down ↦ inl (ground arith)
  | inr up ↦ inr (expired_keys now (stale_data_tolerance_ms s) s.stale_cache, ground arith)
]

expire_keeps :
    (keys : List String) (s : Service)
    → KeepsBoth s (record s { stale_cache = delete_keys keys s.stale_cache })
expire_keeps keys s = (
  λ h.
      let kept = delete_keys_keeps keys s.stale_cache h.distinct in
      record { distinct = kept.0; bounded = omega (arith, kept.1, h.bounded) },
  λ h. h,
)

expired_keeps : (now : ℕ) (s : Service) → KeepsBoth s (cleanup_expired_stale_entries now s)
expired_keeps now s = elim (expired_state now s) [
  | inl same ↦ subst (KeepsBoth s) (sym same) (λ h. h, λ h. h)
  | inr (keys, less) ↦ subst (KeepsBoth s) (sym less) (expire_keeps keys s)
]

-- What the adapter and the timers do with the service.
pub data Call : Type 0 where
  consumer_call :
      ℕ
      → ℕ
      → String
      → String
      → Outcome (Option ConsumerSecret)
      → Fire (Option ConsumerSecret)
      → RedisAnswer
      → Call
  plain_call : ℕ → String → Outcome ℕ → Fire ℕ → Option ℕ → Call
  breaker_cleanup : ℕ → Call
  stale_cleanup : ℕ → Call
  clear : Call
  stop : Call

-- The results of the operations are left out; for the state the type of a plain one does not matter.
unfoldable pub step : Call → Service → Service
step (consumer_call now later operation consumer_id action fire redis) s =
    (wrap_kong_consumer_operation now later operation consumer_id action fire redis s).0
step (plain_call now operation action fire fallback) s =
    (wrap_kong_operation now operation action fire fallback s).0
step (breaker_cleanup now) s = cleanup_unused_breakers now s
step (stale_cleanup now) s = cleanup_expired_stale_entries now s
step clear s = clear_stale_cache s
step stop s = shutdown s

unfoldable pub run : List Call → Service → Service
run [] s = s
run (c ∷ cs) s = run cs (step c s)

step_keeps : (c : Call) (s : Service) → KeepsBoth s (step c s)
unfolding step clear_stale_cache shutdown get
step_keeps (consumer_call now later operation consumer_id action fire redis) s = (
  consumer_keeps now later operation consumer_id action fire redis s,
  consumer_tracks now later operation consumer_id action fire redis s,
)
step_keeps (plain_call now operation action fire fallback) s =
    plain_keeps now operation action fire fallback s
step_keeps (breaker_cleanup now) s = unused_keeps now s
step_keeps (stale_cleanup now) s = expired_keeps now s
step_keeps clear s = (λ h. record { distinct = tt; bounded = omega arith }, λ h. h)
step_keeps stop s = (λ h. record { distinct = tt; bounded = omega arith }, λ h q. refl)

run_keeps : (cs : List Call) (s : Service) → KeepsBoth s (run cs s)
unfolding run
run_keeps [] s = (λ h. h, λ h. h)
run_keeps (c ∷ cs) s =
    let (stale, tracked) = step_keeps c s in
    let (stale_rest, tracked_rest) = run_keeps cs (step c s) in
    (λ h. stale_rest (stale h), λ h. tracked_rest (tracked h))

-- Whatever operations, cleanups and shutdowns a new service goes through, at whatever times and with
-- whatever answers of opossum and of the Redis tier: its stale cache holds no key twice and never
-- more entries than the limit, and it knows a usage time for exactly the breakers that it has.
pub run-bounded :
    (config : ServiceConfig) (tolerance_minutes : ℕ) (max_memory_entries : Option ℕ)
    (has_cache_service : Bool) (cs : List Call)
    → let s = run cs (new config tolerance_minutes max_memory_entries has_cache_service) in
      HasBoundedStale s × HasTrackedBreakers s
unfolding new
run-bounded config tolerance_minutes max_memory_entries has_cache_service cs =
    let s = new config tolerance_minutes max_memory_entries has_cache_service in
    let (stale, tracked) = run_keeps cs s in
    (stale (record { distinct = tt; bounded = omega arith }), tracked (λ q. refl))
