-- ===== src/Kong/Operations.antt =====
-- The two ways to run an operation behind a breaker. `now` is the instant of the call and `later` the
-- one at which its promise is settled.
use authentication_v.Base.{ℕ, true, false, Option, none, some, String, if◌then◌else◌}
use authentication_v.Base.Dict.{delete}
use authentication_v.Kong.Types.{
  ConsumerSecret, Outcome, returned, threw, Fire, resolved, rejected, RedisAnswer, Reply, value,
  null,
}
use authentication_v.Kong.Service.{Service, get_or_create_breaker}
use authentication_v.Kong.Fallback.{
  cache_key, is_mismatch, handle_open_circuit, update_stale_cache,
  handle_open_circuit_with_stale_data,
}

reply_of : {A : Type 0} → Outcome A → Outcome (Reply A)
reply_of (returned v) = returned (value v)
reply_of threw = threw

settle : {A : Type 0} → Fire A → String → Option A → Service → Reply A
settle (resolved v) operation fallback s = value v
settle (rejected true) operation fallback s = handle_open_circuit operation fallback s
settle (rejected false) operation fallback s = null

-- `action` is how the operation itself ends, which counts where the breaker is disabled, and `fire`
-- how opossum ends it.
unfoldable pub wrap_kong_operation :
    {A : Type 0}
    → ℕ
    → String
    → Outcome A
    → Fire A
    → Option A
    → Service
    → Service × Outcome (Reply A)
unfolding reply_of settle
wrap_kong_operation now operation action fire fallback s =
    if s.config.enabled
    then (let s' = get_or_create_breaker now operation s in
        (s', returned (settle fire operation fallback s')))
    else (s, reply_of action)

settle_consumer :
    Fire (Option ConsumerSecret)
    → RedisAnswer
    → ℕ
    → String
    → String
    → Service
    → Service × Option ConsumerSecret
unfolding cache_key is_mismatch
settle_consumer (resolved none) redis later operation consumer_id s =
    (record s { stale_cache = delete (cache_key consumer_id) s.stale_cache }, none)
settle_consumer (resolved (some secret)) redis later operation consumer_id s =
    if is_mismatch secret consumer_id
    then (s, none)
    else (update_stale_cache later (cache_key consumer_id) secret s, some secret)
settle_consumer (rejected true) redis later operation consumer_id s =
    handle_open_circuit_with_stale_data redis later operation (cache_key consumer_id) consumer_id s
settle_consumer (rejected false) redis later operation consumer_id s = (s, none)

abbrev as_returned : Service × Option ConsumerSecret → Service × Outcome (Option ConsumerSecret)
as_returned (s, r) = (s, returned r)

unfoldable pub wrap_kong_consumer_operation :
    ℕ
    → ℕ
    → String
    → String
    → Outcome (Option ConsumerSecret)
    → Fire (Option ConsumerSecret)
    → RedisAnswer
    → Service
    → Service × Outcome (Option ConsumerSecret)
unfolding settle_consumer
wrap_kong_consumer_operation now later operation consumer_id action fire redis s =
    if s.config.enabled
    then as_returned (
        settle_consumer fire redis later operation consumer_id
          (get_or_create_breaker now operation s))
    else (s, action)
