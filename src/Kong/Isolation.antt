-- ===== src/Kong/Isolation.antt =====
-- Which consumer a secret that the service returns belongs to.
use authentication_v.Base.{ℕ, ◌≡◌, true, false, Option, none, some, String, eq_iff, arith}
use authentication_v.Kong.Types.{ConsumerSecret, Outcome, returned, Fire, RedisAnswer}
use authentication_v.Kong.Service.{Service, get_or_create_breaker}
use authentication_v.Kong.Fallback.{
  cache_key, is_mismatch, from_memory, handle_open_circuit_with_stale_data,
}
use authentication_v.Kong.Operations.{wrap_kong_consumer_operation}

-- The secret names this consumer, or has no object `consumer` at all.
abbrev pub BelongsTo : String → ConsumerSecret → Type 0
BelongsTo consumer_id secret =
    (id : Option String) → secret.consumer ≡ some id → id ≡ some consumer_id

pub match-BelongsTo :
    (consumer_id : String) (secret : ConsumerSecret)
    → is_mismatch secret consumer_id ≡ false
    → BelongsTo consumer_id secret
unfolding is_mismatch
match-BelongsTo consumer_id secret h none e = absurd (ground (arith, h, e))
match-BelongsTo consumer_id secret h (some id) e = ground (arith, h, e, eq_iff id consumer_id)

from_memory_match :
    (now : ℕ) (key consumer_id : String) (s : Service) (secret : ConsumerSecret)
    → (from_memory now key consumer_id s).1 ≡ some secret
    → is_mismatch secret consumer_id ≡ false
unfolding from_memory
from_memory_match now key consumer_id s secret e = ground arith

open_circuit_match :
    (redis : RedisAnswer) (now : ℕ) (operation key consumer_id : String) (s : Service)
    (secret : ConsumerSecret)
    → (handle_open_circuit_with_stale_data redis now operation key consumer_id s).1 ≡ some secret
    → is_mismatch secret consumer_id ≡ false
unfolding handle_open_circuit_with_stale_data
open_circuit_match redis now operation key consumer_id s secret e =
    ground (arith, from_memory_match now key consumer_id s secret)

enabled_match :
    (now later : ℕ) (operation consumer_id : String) (action : Outcome (Option ConsumerSecret))
    (fire : Fire (Option ConsumerSecret)) (redis : RedisAnswer) (s : Service)
    (secret : ConsumerSecret)
    → s.config.enabled ≡ true
    → (wrap_kong_consumer_operation now later operation consumer_id action fire redis s).1
      ≡ returned (some secret)
    → is_mismatch secret consumer_id ≡ false
unfolding wrap_kong_consumer_operation
enabled_match now later operation consumer_id action fire redis s secret on e = ground (
  arith,
  open_circuit_match redis later operation (cache_key consumer_id) consumer_id
      (get_or_create_breaker now operation s) secret,
)

-- While the breaker is enabled, every secret that the operation returns belongs to the consumer that
-- was asked for, or has no object `consumer`: whether it is Kong's answer, the one of the Redis tier or that of
-- the in-memory tier, and whatever the caches hold.
pub wrap_kong_consumer_operation-BelongsTo :
    (now later : ℕ) (operation consumer_id : String) (action : Outcome (Option ConsumerSecret))
    (fire : Fire (Option ConsumerSecret)) (redis : RedisAnswer) (s : Service)
    {secret : ConsumerSecret}
    → s.config.enabled ≡ true
    → (wrap_kong_consumer_operation now later operation consumer_id action fire redis s).1
      ≡ returned (some secret)
    → BelongsTo consumer_id secret
wrap_kong_consumer_operation-BelongsTo now later operation consumer_id action fire redis s {secret}
      on e =
    match-BelongsTo consumer_id secret
      (enabled_match now later operation consumer_id action fire redis s secret on e)
