-- ===== src/Kong/Fallback.antt =====
-- What the service answers while a circuit is open.
use Prim.Native.String.{◌++◌ as str_append}
use authentication_v.Base.{
  ℕ, ◌+◌, ◌*◌, Bool, true, false, ◌&&◌, not, Option, none, some, String, str_eq, ltb, if◌then◌else◌,
}
use authentication_v.Base.Dict.{get, set, delete}
use authentication_v.Base.Evict.{evict_oldest}
use authentication_v.Kong.Types.{
  ConsumerSecret, StaleEntry, Strategy, cache, graceful_degradation, deny, RedisAnswer, absent,
  failed, hit, Degradation, unhealthy, unavailable, Reply, value, null, degraded,
}
use authentication_v.Kong.Service.{Service, fallback_strategy}

unfoldable pub handle_graceful_degradation : String → Degradation
handle_graceful_degradation operation =
    if str_eq operation "healthCheck" then unhealthy else unavailable operation

reply_or_null : {A : Type 0} → Option A → Reply A
reply_or_null none = null
reply_or_null (some v) = value v

open_reply : {A : Type 0} → Strategy → String → Option A → Reply A
unfolding handle_graceful_degradation reply_or_null
open_reply graceful_degradation operation fallback =
    degraded (handle_graceful_degradation operation)
open_reply deny operation fallback = null
open_reply cache operation fallback = reply_or_null fallback

unfoldable pub handle_open_circuit : {A : Type 0} → String → Option A → Service → Reply A
unfolding open_reply
handle_open_circuit operation fallback s =
    open_reply (fallback_strategy operation s) operation fallback

-- `consumer_secret:${consumerId}`
unfoldable pub cache_key : String → String
cache_key consumer_id = str_append "consumer_secret:" consumer_id

-- `secret.consumer && secret.consumer.id !== consumerId`
abbrev pub differs : Option (Option String) → String → Bool
differs none consumer_id = false
differs (some none) consumer_id = true
differs (some (some id)) consumer_id = not (str_eq id consumer_id)

unfoldable pub is_mismatch : ConsumerSecret → String → Bool
is_mismatch secret consumer_id = differs secret.consumer consumer_id

-- `enforceMaxStaleEntries`
unfoldable pub enforce_max_stale_entries : Service → Service
enforce_max_stale_entries s = record s {
  stale_cache = evict_oldest (λ e. e.timestamp) s.max_stale_entries s.stale_cache;
}

unfoldable pub update_stale_cache : ℕ → String → ConsumerSecret → Service → Service
unfolding enforce_max_stale_entries
update_stale_cache now key secret s =
    enforce_max_stale_entries (record s {
      stale_cache = set key (record { secret = secret; timestamp = now }) s.stale_cache;
    })

-- `(Date.now() - cached.timestamp) / 60000 > this.staleDataToleranceMinutes`
abbrev pub is_too_old : ℕ → StaleEntry → Service → Bool
is_too_old now e s = ltb (e.timestamp + s.stale_data_tolerance_minutes * 60000) now

stale_found : ℕ → String → Option StaleEntry → Service → Service × Option StaleEntry
stale_found now key none s = (s, none)
stale_found now key (some e) s =
    if is_too_old now e s
    then (record s { stale_cache = delete key s.stale_cache }, none)
    else (s, some e)

unfoldable pub get_stale_data : ℕ → String → Service → Service × Option StaleEntry
unfolding stale_found
get_stale_data now key s = stale_found now key (get key s.stale_cache) s

-- The in-memory tier: an entry of another consumer is dropped and not served.
memory_answer : String → String → Service × Option StaleEntry → Service × Option ConsumerSecret
unfolding is_mismatch
memory_answer key consumer_id (s, none) = (s, none)
memory_answer key consumer_id (s, some e) =
    if is_mismatch e.secret consumer_id
    then (record s { stale_cache = delete key s.stale_cache }, none)
    else (s, some e.secret)

unfoldable pub from_memory : ℕ → String → String → Service → Service × Option ConsumerSecret
unfolding memory_answer get_stale_data
from_memory now key consumer_id s = memory_answer key consumer_id (get_stale_data now key s)

-- The Redis tier, and the in-memory one where it has no answer.
from_redis : RedisAnswer → ℕ → String → String → Service → Service × Option ConsumerSecret
unfolding is_mismatch from_memory
from_redis absent now key consumer_id s = from_memory now key consumer_id s
from_redis failed now key consumer_id s = from_memory now key consumer_id s
from_redis (hit secret) now key consumer_id s =
    if is_mismatch secret consumer_id then (s, none) else (s, some secret)

stale_by : Strategy → RedisAnswer → ℕ → String → String → Service → Service × Option ConsumerSecret
unfolding from_redis from_memory
stale_by deny redis now key consumer_id s = (s, none)
stale_by graceful_degradation redis now key consumer_id s = (s, none)
stale_by cache redis now key consumer_id s =
    if s.config.high_availability && s.has_cache_service
    then from_redis redis now key consumer_id s
    else from_memory now key consumer_id s

-- `redis` is the answer of the stale tier, where it is asked.
unfoldable pub handle_open_circuit_with_stale_data :
    RedisAnswer → ℕ → String → String → String → Service → Service × Option ConsumerSecret
unfolding stale_by
handle_open_circuit_with_stale_data redis now operation key consumer_id s =
    stale_by (fallback_strategy operation s) redis now key consumer_id s
