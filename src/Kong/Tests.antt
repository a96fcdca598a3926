-- ===== src/Kong/Tests.antt =====
-- Runs of the circuit breaker service and of the adapter (src/services/circuit-breaker.service.ts and
-- src/adapters/kong.adapter.ts) on given answers of Kong.
use authentication_v.Base.{
  ℕ, ◌==◌, if◌then◌else◌, ◌≡◌, refl, true, false, Option, none, some, String, List, [], ◌∷◌, arith,
}
use authentication_v.Base.Dict.{get}
use authentication_v.Memory.Store.{Store}
use authentication_v.Memory.Store
use authentication_v.Kong.Types.{
  ConsumerSecret, Outcome, returned, threw, Fire, resolved, rejected, RedisAnswer, absent, failed,
  hit,
}
use authentication_v.Kong.Service.{Service, ServiceConfig, new, fallback_strategy}
use authentication_v.Kong.Fallback.{is_mismatch}
use authentication_v.Kong.Operations.{wrap_kong_consumer_operation}
use authentication_v.Kong.Bounds.{HasBoundedStale, HasTrackedBreakers}
use authentication_v.Kong.Course
use authentication_v.Kong.Course.{run-bounded}
use authentication_v.Kong.Isolation.{BelongsTo, wrap_kong_consumer_operation-BelongsTo}
use authentication_v.Kong.Stale.{stale_served, revoked_not_served}
use authentication_v.Kong.Adapter.{ModeStrategy, Response, fetch_secret, create_secret}
use authentication_v.Kong.Calls.{Adapter, get_consumer_secret, create_consumer_secret}
use authentication_v.Kong.Local.{local_cache}
use authentication_v.Kong.Lookup.{
  IsOwned, get_consumer_secret-BelongsTo, create_consumer_secret-BelongsTo,
}

abbrev config : ServiceConfig
config = record {
  enabled = true;
  timeout = 5000;
  error_threshold_percentage = 50;
  reset_timeout = 60000;
  rolling_count_timeout = 10000;
  rolling_count_buckets = 10;
  volume_threshold = 3;
  operations = [];
  high_availability = false;
}

abbrev service : Service
service = new config 60 none false

abbrev secret_of : String → ConsumerSecret
secret_of consumer_id = record {
  id = "s1";
  key = "k1";
  secret = "x";
  consumer = some (some consumer_id);
}

service-HasBoundedStale : HasBoundedStale service
unfolding new
service-HasBoundedStale = record { distinct = tt; bounded = omega arith }

wrap_kong_consumer_operation-BelongsTo_example : BelongsTo "ann" (secret_of "ann")
unfolding wrap_kong_consumer_operation is_mismatch new
wrap_kong_consumer_operation-BelongsTo_example =
    wrap_kong_consumer_operation-BelongsTo 10 20 "getConsumerSecret" "ann" threw
      (resolved (some (secret_of "ann"))) absent service refl refl

revoked_not_served_example :
    (wrap_kong_consumer_operation 30 40 "getConsumerSecret" "ann" threw
      (rejected true)
      failed
      (wrap_kong_consumer_operation 10 20 "getConsumerSecret" "ann" threw
        (resolved none)
        absent
        service).0).1
    ≡ returned none
unfolding new
revoked_not_served_example =
    revoked_not_served 10 20 30 40 "getConsumerSecret" "getConsumerSecret" "ann" threw threw absent
      failed service refl refl

cached_by_default :
    fallback_strategy "getConsumerSecret" service ≡ authentication_v.Kong.Types.Strategy.cache
unfolding fallback_strategy new get
cached_by_default = refl

stale_served_example :
    (wrap_kong_consumer_operation 30 40 "getConsumerSecret" "ann" threw
      (rejected true)
      failed
      (wrap_kong_consumer_operation 10 20 "getConsumerSecret" "ann" threw
        (resolved (some (secret_of "ann")))
        absent
        service).0).1
    ≡ returned (some (secret_of "ann"))
unfolding new is_mismatch
stale_served_example =
    stale_served 10 20 30 40 "getConsumerSecret" "getConsumerSecret" "ann" threw threw absent failed
      service (secret_of "ann") refl refl refl service-HasBoundedStale (omega arith) tt
      cached_by_default

abbrev calls : List Course.Call
calls =
    Course.consumer_call 10 20 "getConsumerSecret" "ann" threw (resolved (some (secret_of "ann")))
      absent
    ∷ Course.plain_call 30 "healthCheck" threw (rejected true) none
    ∷ Course.breaker_cleanup 9000000
    ∷ Course.stale_cleanup 9000000
    ∷ Course.stop
    ∷ []

run-bounded_example :
    HasBoundedStale (Course.run calls service) × HasTrackedBreakers (Course.run calls service)
run-bounded_example = run-bounded config 60 none false calls

-- A strategy that resolves no id, and an adapter with an empty in-memory cache.
abbrev gateway : ModeStrategy
gateway = record { is_ready = true; resolve_consumer_id = none }

abbrev adapter : Adapter (Store ConsumerSecret)
adapter = record { cache = some (Store.new 300 100); circuit_breaker = service }

-- Kong answers with the secret of another consumer.
abbrev confused : String → Outcome (Response (Option (List ConsumerSecret)))
confused id =
    returned (record { ok = true; status = 200; parsed = returned (some (secret_of "bob" ∷ [])) })

-- What opossum does with an action while the circuit is closed.
abbrev passes : Outcome (Option ConsumerSecret) → Fire (Option ConsumerSecret)
passes (returned v) = resolved v
passes threw = rejected false

abbrev conflict : Outcome (Response (Option ConsumerSecret))
conflict = returned (record { ok = false; status = 409; parsed = threw })

abbrev created : Outcome (Response (Option ConsumerSecret))
created = returned (record { ok = true; status = 201; parsed = returned (some (secret_of "ann")) })

-- The first key collides, and the next does not.
abbrev posts : ℕ → Outcome (Response (Option ConsumerSecret))
posts attempt = if attempt == 1 then conflict else created

empty-IsOwned : IsOwned (local_cache 1) adapter.cache
unfolding get
empty-IsOwned consumer_id v (entry, found, same) = absurd (ground arith)

get_consumer_secret-BelongsTo_example :
    let (a', result) =
      get_consumer_secret
        (local_cache 1)
        10
        20
        "ann"
        (fetch_secret gateway confused "ann")
        passes
        true
        absent
        adapter in
    IsOwned (local_cache 1) a'.cache
    × ((secret : ConsumerSecret) → result ≡ returned (some secret) → BelongsTo "ann" secret)
unfolding new
get_consumer_secret-BelongsTo_example =
    get_consumer_secret-BelongsTo (local_cache 1) 10 20 "ann" gateway confused passes true absent
      adapter refl empty-IsOwned

create_consumer_secret-BelongsTo_example :
    let (a', result) =
      create_consumer_secret
        (local_cache 1)
        10
        20
        "ann"
        (create_secret gateway (λ id. posts) "ann")
        passes
        true
        absent
        adapter in
    IsOwned (local_cache 1) a'.cache
    × ((secret : ConsumerSecret) → result ≡ returned (some secret) → BelongsTo "ann" secret)
unfolding new
create_consumer_secret-BelongsTo_example =
    create_consumer_secret-BelongsTo (local_cache 1) 10 20 "ann" gateway (λ id. posts) passes true
      absent adapter refl empty-IsOwned
