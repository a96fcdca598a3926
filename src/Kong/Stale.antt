-- ===== src/Kong/Stale.antt =====
-- When the in-memory stale cache answers for Kong, and with what.
use authentication_v.Base.{
  ℕ, ◌+◌, ◌*◌, ◌≤◌, ◌<◌, ◌≡◌, true, false, Option, none, some, String, arith, All, leb, ap, ◌∙◌,
  if◌then◌else◌,
}
use authentication_v.Base.Dict.{get, get-delete_self}
use authentication_v.Base.Evict.{newest_survives}
use authentication_v.Kong.Types.{
  ConsumerSecret, StaleEntry, Outcome, returned, resolved, rejected, RedisAnswer, cache,
}
use authentication_v.Kong.Service.{Service, get_or_create_breaker, fallback_strategy}
use authentication_v.Kong.Fallback.{
  cache_key, is_mismatch, update_stale_cache, handle_open_circuit_with_stale_data, from_memory,
}
use authentication_v.Kong.Operations.{wrap_kong_consumer_operation}
use authentication_v.Kong.Bounds.{HasBoundedStale}

-- What the creation of a breaker leaves alone.
created_same :
    (now : ℕ) (operation : String) (s : Service)
    → let s' = get_or_create_breaker now operation s in
      (s'.stale_cache ≡ s.stale_cache)
      × (s'.config ≡ s.config)
      × (s'.operation_configs ≡ s.operation_configs)
      × (s'.max_stale_entries ≡ s.max_stale_entries)
      × (s'.stale_data_tolerance_minutes ≡ s.stale_data_tolerance_minutes)
unfolding get_or_create_breaker
created_same now operation s =
    (ground arith, ground arith, ground arith, ground arith, ground arith)

-- The answer of the in-memory tier, by what it holds.
memory_none :
    (now : ℕ) (key consumer_id : String) (s : Service)
    → get key s.stale_cache ≡ none
    → (from_memory now key consumer_id s).1 ≡ none
unfolding from_memory
memory_none now key consumer_id s gone = ground arith

memory_some :
    (now : ℕ) (key consumer_id : String) (s : Service) (e : StaleEntry)
    → get key s.stale_cache ≡ some e
    → is_mismatch e.secret consumer_id ≡ false
    → (from_memory now key consumer_id s).1 ≡ (
        if leb now (e.timestamp + s.stale_data_tolerance_minutes * 60000)
        then some e.secret
        else none)
unfolding from_memory is_mismatch
memory_some now key consumer_id s e found own = ground arith

-- The result of a consumer's operation that fails while the circuit is open, without the Redis tier.
open_result :
    (now later : ℕ) (operation consumer_id : String) (action : Outcome (Option ConsumerSecret))
    (redis : RedisAnswer) (s : Service)
    → s.config.enabled ≡ true
    → s.config.high_availability ≡ false
    → (wrap_kong_consumer_operation now later operation consumer_id action
        (rejected true)
        redis
        s).1
      ≡ returned
          (handle_open_circuit_with_stale_data redis later operation
            (cache_key consumer_id)
            consumer_id
            (get_or_create_breaker now operation s)).1
unfolding wrap_kong_consumer_operation
open_result now later operation consumer_id action redis s on plain = ground arith

open_none :
    (redis : RedisAnswer) (now : ℕ) (operation key consumer_id : String) (s : Service)
    → s.config.high_availability ≡ false
    → get key s.stale_cache ≡ none
    → (handle_open_circuit_with_stale_data redis now operation key consumer_id s).1 ≡ none
unfolding handle_open_circuit_with_stale_data
open_none redis now operation key consumer_id s plain gone =
    ground (arith, memory_none now key consumer_id s)

open_cache :
    (redis : RedisAnswer) (now : ℕ) (operation key consumer_id : String) (s : Service)
    → s.config.high_availability ≡ false
    → fallback_strategy operation s ≡ cache
    → (handle_open_circuit_with_stale_data redis now operation key consumer_id s).1
      ≡ (from_memory now key consumer_id s).1
unfolding handle_open_circuit_with_stale_data
open_cache redis now operation key consumer_id s plain by_cache = ground arith

same_strategy :
    (operation : String) (s s' : Service)
    → s'.operation_configs ≡ s.operation_configs
    → fallback_strategy operation s' ≡ fallback_strategy operation s
unfolding fallback_strategy
same_strategy operation s s' e = cc

-- The service after Kong answered that the consumer has no secret.
answered_none :
    (now later : ℕ) (operation consumer_id : String) (action : Outcome (Option ConsumerSecret))
    (redis : RedisAnswer) (s : Service)
    → s.config.enabled ≡ true
    → let s1 =
        (wrap_kong_consumer_operation now later operation consumer_id action
          (resolved none)
          redis
          s).0 in
      (s1.config ≡ s.config) × (get (cache_key consumer_id) s1.stale_cache ≡ none)
unfolding wrap_kong_consumer_operation
answered_none now later operation consumer_id action redis s on =
    let same = created_same now operation s in
    (
      ground arith,
      ground (
        arith,
        get-delete_self (cache_key consumer_id) (get_or_create_breaker now operation s).stale_cache,
      ),
    )

-- A revoked secret is not served again: once Kong has answered that a consumer has none, an
-- operation for the same consumer that then fails on an open circuit returns none, at any later
-- time, unless the Redis tier is used.
pub revoked_not_served :
    (now later now' later' : ℕ) (operation operation' consumer_id : String)
    (action action' : Outcome (Option ConsumerSecret)) (redis redis' : RedisAnswer) (s : Service)
    → s.config.enabled ≡ true
    → s.config.high_availability ≡ false
    → let s1 =
        (wrap_kong_consumer_operation now later operation consumer_id action
          (resolved none)
          redis
          s).0 in
      (wrap_kong_consumer_operation now' later' operation' consumer_id action'
        (rejected true)
        redis'
        s1).1
      ≡ returned none
revoked_not_served now later now' later' operation operation' consumer_id action action' redis
      redis' s on plain =
    let s1 =
      (wrap_kong_consumer_operation now later operation consumer_id action (resolved none) redis
        s).0 in
    let s2 = get_or_create_breaker now' operation' s1 in
    let (config1, gone1) = answered_none now later operation consumer_id action redis s on in
    let same = created_same now' operation' s1 in
    open_result now' later' operation' consumer_id action' redis' s1
      (ap (λ c. c.enabled) config1 ∙ on) (ap (λ c. c.high_availability) config1 ∙ plain)
    ∙ ap returned (
        open_none redis' later' operation' (cache_key consumer_id) consumer_id s2
          (ap (λ c. c.high_availability) (same.1 ∙ config1) ∙ plain)
          (ap (get (cache_key consumer_id)) same.0 ∙ gone1))

-- The service after Kong answered with a secret of the consumer.
answered_some :
    (now later : ℕ) (operation consumer_id : String) (action : Outcome (Option ConsumerSecret))
    (redis : RedisAnswer) (s : Service) (secret : ConsumerSecret)
    → s.config.enabled ≡ true
    → is_mismatch secret consumer_id ≡ false
    → HasBoundedStale s
    → 0 < s.max_stale_entries
    → All (λ e. e.1.timestamp ≤ later) s.stale_cache
    → let s1 =
        (wrap_kong_consumer_operation now later operation consumer_id action
          (resolved (some secret))
          redis
          s).0 in
      (s1.config ≡ s.config)
      × (s1.operation_configs ≡ s.operation_configs)
      × (s1.stale_data_tolerance_minutes ≡ s.stale_data_tolerance_minutes)
      × (get (cache_key consumer_id) s1.stale_cache
          ≡ some (record { secret = secret; timestamp = later }))
unfolding wrap_kong_consumer_operation update_stale_cache
answered_some now later operation consumer_id action redis s secret on own h room old =
    let same = created_same now operation s in
    let e : StaleEntry = record { secret = secret; timestamp = later } in
    let kept =
      newest_survives (λ (e : StaleEntry). e.timestamp) s.max_stale_entries (cache_key consumer_id)
        e s.stale_cache h.distinct h.bounded room old in
    (ground arith, ground arith, ground arith, ground arith)

-- A secret that Kong returned is served again while the circuit is open: an operation with the
-- cache strategy that fails on an open circuit, without the Redis tier, returns that secret while
-- its age is within the tolerance, and null afterwards. Conditions: breakers are enabled, the
-- secret is the consumer's, the stale cache has room for an entry and holds none from the future.
pub stale_served :
    (now later now' later' : ℕ) (operation operation' consumer_id : String)
    (action action' : Outcome (Option ConsumerSecret)) (redis redis' : RedisAnswer) (s : Service)
    (secret : ConsumerSecret)
    → s.config.enabled ≡ true
    → s.config.high_availability ≡ false
    → is_mismatch secret consumer_id ≡ false
    → HasBoundedStale s
    → 0 < s.max_stale_entries
    → All (λ e. e.1.timestamp ≤ later) s.stale_cache
    → fallback_strategy operation' s ≡ cache
    → let s1 =
        (wrap_kong_consumer_operation now later operation consumer_id action
          (resolved (some secret))
          redis
          s).0 in
      (wrap_kong_consumer_operation now' later' operation' consumer_id action'
        (rejected true)
        redis'
        s1).1
      ≡ returned (
          if leb later' (later + s.stale_data_tolerance_minutes * 60000) then some secret else none)
stale_served now later now' later' operation operation' consumer_id action action' redis redis' s
      secret on plain own h room old by_cache =
    let s1 =
      (wrap_kong_consumer_operation now later operation consumer_id action (resolved (some secret))
        redis s).0 in
    let s2 = get_or_create_breaker now' operation' s1 in
    let (config1, configs1, tolerance1, held1) =
      answered_some now later operation consumer_id action redis s secret on own h room old in
    let same = created_same now' operation' s1 in
    open_result now' later' operation' consumer_id action' redis' s1
      (ap (λ c. c.enabled) config1 ∙ on) (ap (λ c. c.high_availability) config1 ∙ plain)
    ∙ ap returned (
        open_cache redis' later' operation' (cache_key consumer_id) consumer_id s2
          (ap (λ c. c.high_availability) (same.1 ∙ config1) ∙ plain)
          (same_strategy operation' s s2 (same.2 ∙ configs1) ∙ by_cache)
        ∙ memory_some later' (cache_key consumer_id) consumer_id s2
            (record { secret = secret; timestamp = later })
            (ap (get (cache_key consumer_id)) same.0 ∙ held1) own
        ∙ ap (λ t. if leb later' (later + t * 60000) then some secret else none)
            (same.4 ∙ tolerance1))
