-- ===== src/Kong/Calls.antt =====
-- `getConsumerSecret` and `createConsumerSecret` of the adapter, over any cache with the contract of
-- `IKongCacheService` that the adapter relies on.
use authentication_v.Base.{ℕ, ◌≡◌, ◌⊎◌, Bool, ◌||◌, not, Option, none, some, String, if◌then◌else◌}
use authentication_v.Kong.Types.{ConsumerSecret, Outcome, returned, Fire, RedisAnswer}
use authentication_v.Kong.Service.{Service}
use authentication_v.Kong.Fallback.{cache_key}
use authentication_v.Kong.Operations.{wrap_kong_consumer_operation}
use authentication_v.Kong.Adapter.{Action}

-- `get` and `set` of a cache with states `S`, at an instant. A read gives what the cache holds; what
-- it holds afterwards it held before; and after a write it holds the written value or what it held.
pub record KongCache (S : Type 0) : Type 1 where
  pub read : ℕ → String → S → S × Option ConsumerSecret
  pub write : ℕ → String → ConsumerSecret → S → S
  pub Holds : String → ConsumerSecret → S → Type 0
  pub read_held :
      (now : ℕ) (key : String) (s : S) (v : ConsumerSecret)
      → (read now key s).1 ≡ some v
      → Holds key v s
  pub held_before_read :
      (now : ℕ) (key other : String) (s : S) (v : ConsumerSecret)
      → Holds other v (read now key s).0
      → Holds other v s
  pub held_after_write :
      (now : ℕ) (key other : String) (s : S) (w v : ConsumerSecret)
      → Holds other v (write now key w s)
      → ((other ≡ key) × (v ≡ w)) ⊎ Holds other v s

-- The fields of the adapter that change; `cache` is none while `this.cache` is null.
pub record Adapter (S : Type 0) : Type 0 where
  pub cache : Option S
  pub circuit_breaker : Service

module _ {S : Type 0} (ops : KongCache S) where
  unfoldable pub read_cache : ℕ → String → Option S → Option S × Option ConsumerSecret
  read_cache now key none = (none, none)
  read_cache now key (some s) = (some (ops.read now key s).0, (ops.read now key s).1)

  unfoldable pub write_cache : ℕ → String → Option ConsumerSecret → Option S → Option S
  write_cache now key none c = c
  write_cache now key (some v) none = none
  write_cache now key (some v) (some s) = some (ops.write now key v s)

  -- An operation behind the breaker. `fire` is what the library opossum makes of how the action ends,
  -- and `runs` whether it starts the action at all; without a breaker the action always runs.
  unfoldable pub run_action :
      ℕ
      → ℕ
      → String
      → String
      → Action
      → (Outcome (Option ConsumerSecret) → Fire (Option ConsumerSecret))
      → Bool
      → RedisAnswer
      → Adapter S
      → Adapter S × Outcome (Option ConsumerSecret)
  unfolding write_cache
  run_action now later operation consumer_id (kept, end) fire runs redis a =
      let settled =
        wrap_kong_consumer_operation now later operation consumer_id end (fire end) redis
          a.circuit_breaker in
      (
        record {
          cache =
              if runs || not a.circuit_breaker.config.enabled
              then write_cache later (cache_key consumer_id) kept a.cache
              else a.cache;
          circuit_breaker = settled.0;
        },
        settled.1,
      )

  found_or_run :
      Option ConsumerSecret
      → Adapter S
      → Adapter S × Outcome (Option ConsumerSecret)
      → Adapter S × Outcome (Option ConsumerSecret)
  found_or_run none a ran = ran
  found_or_run (some secret) a ran = (a, returned (some secret))

  unfoldable pub get_consumer_secret :
      ℕ
      → ℕ
      → String
      → Action
      → (Outcome (Option ConsumerSecret) → Fire (Option ConsumerSecret))
      → Bool
      → RedisAnswer
      → Adapter S
      → Adapter S × Outcome (Option ConsumerSecret)
  unfolding read_cache run_action found_or_run
  get_consumer_secret now later consumer_id action fire runs redis a =
      let (cache', cached) = read_cache now (cache_key consumer_id) a.cache in
      let a' = record a { cache = cache' } in
      found_or_run cached a'
        (run_action now later "getConsumerSecret" consumer_id action fire runs redis a')

  unfoldable pub create_consumer_secret :
      ℕ
      → ℕ
      → String
      → Action
      → (Outcome (Option ConsumerSecret) → Fire (Option ConsumerSecret))
      → Bool
      → RedisAnswer
      → Adapter S
      → Adapter S × Outcome (Option ConsumerSecret)
  unfolding run_action
  create_consumer_secret now later consumer_id action fire runs redis a =
      run_action now later "createConsumerSecret" consumer_id action fire runs redis a
