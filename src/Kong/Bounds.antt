-- ===== src/Kong/Bounds.antt =====
-- The service's own data, operation by operation: the stale cache and its limit, and the breakers
-- and their usage times.
use authentication_v.Base.{
  ℕ, ◌≤◌, ◌≡◌, true, false, Option, none, some, String, eq_iff, arith, Bool-cases, sym, subst, ◌⊎◌,
  inl, inr,
}
use authentication_v.Base.Dict.{
  delete, has, size, HasDistinctKeys, has-set, set-HasDistinctKeys, delete-HasDistinctKeys,
  size-delete-le,
}
use authentication_v.Base.Evict.{size-evict_oldest, evict_oldest-HasDistinctKeys}
use authentication_v.Kong.Types.{ConsumerSecret, Outcome, Fire, resolved, rejected, RedisAnswer}
use authentication_v.Kong.Service.{Service, options_for, get_or_create_breaker}
use authentication_v.Kong.Fallback.{
  cache_key, is_mismatch, update_stale_cache, from_memory, handle_open_circuit_with_stale_data,
}
use authentication_v.Kong.Operations.{wrap_kong_consumer_operation}

pub record HasBoundedStale (s : Service) : Type 0 where
  pub distinct : HasDistinctKeys s.stale_cache
  pub bounded : size s.stale_cache ≤ s.max_stale_entries

-- The breakers are those whose usage time is known.
abbrev pub HasTrackedBreakers : Service → Type 0
HasTrackedBreakers s = (q : String) → has q s.breakers ≡ has q s.last_used

-- The service without the stale entry of a key.
abbrev pub drop_stale : String → Service → Service
drop_stale key s = record s { stale_cache = delete key s.stale_cache }

pub delete_keeps : (k : String) (s : Service) → HasBoundedStale s → HasBoundedStale (drop_stale k s)
delete_keeps k s h = record {
  distinct = delete-HasDistinctKeys k s.stale_cache h.distinct;
  bounded = omega (arith, size-delete-le k s.stale_cache, h.bounded);
}

pub update_keeps :
    (now : ℕ) (k : String) (secret : ConsumerSecret) (s : Service)
    → HasBoundedStale s
    → HasBoundedStale (update_stale_cache now k secret s)
unfolding update_stale_cache
update_keeps now k secret s h =
    let d =
      set-HasDistinctKeys k (record { secret = secret; timestamp = now }) s.stale_cache
        h.distinct in
    record {
      distinct = evict_oldest-HasDistinctKeys (λ e. e.timestamp) s.max_stale_entries _ d;
      bounded = omega (arith, size-evict_oldest (λ e. e.timestamp) s.max_stale_entries _ d);
    }

from_memory_state :
    (now : ℕ) (key consumer_id : String) (s : Service)
    → ((from_memory now key consumer_id s).0 ≡ s)
      ⊎ ((from_memory now key consumer_id s).0 ≡ drop_stale key s)
unfolding from_memory
from_memory_state now key consumer_id s = ground arith

open_circuit_state :
    (redis : RedisAnswer) (now : ℕ) (operation key consumer_id : String) (s : Service)
    → ((handle_open_circuit_with_stale_data redis now operation key consumer_id s).0 ≡ s)
      ⊎ ((handle_open_circuit_with_stale_data redis now operation key consumer_id s).0
          ≡ drop_stale key s)
unfolding handle_open_circuit_with_stale_data
open_circuit_state redis now operation key consumer_id s =
    ground (arith, from_memory_state now key consumer_id s)

-- What an operation for a consumer may leave behind in a service.
abbrev pub Settles : ℕ → String → Service → Service → Type 0
Settles later key s s' =
    (s' ≡ s)
    ⊎ (s' ≡ drop_stale key s)
    ⊎ ((secret : ConsumerSecret) × (s' ≡ update_stale_cache later key secret s))

settled_state :
    (now later : ℕ) (operation consumer_id : String) (action : Outcome (Option ConsumerSecret))
    (fire : Fire (Option ConsumerSecret)) (redis : RedisAnswer) (s : Service)
    → s.config.enabled ≡ true
    → Settles later
        (cache_key consumer_id)
        (get_or_create_breaker now operation s)
        (wrap_kong_consumer_operation now later operation consumer_id action fire redis s).0
unfolding wrap_kong_consumer_operation
settled_state now later operation consumer_id action (resolved none) redis s on =
    inr (inl (ground arith))
settled_state now later operation consumer_id action (resolved (some secret)) redis s on =
    elim (Bool-cases (is_mismatch secret consumer_id)) [
      | inl other ↦ inl (ground arith)
      | inr own ↦ inr (inr (secret, ground arith))
    ]
settled_state now later operation consumer_id action (rejected true) redis s on =
    let s' = get_or_create_breaker now operation s in
    elim (open_circuit_state redis later operation (cache_key consumer_id) consumer_id s') [
      | inl same ↦ inl (ground arith)
      | inr less ↦ inr (inl (ground arith))
    ]
settled_state now later operation consumer_id action (rejected false) redis s on =
    inl (ground arith)

pub create_keeps :
    (now : ℕ) (operation : String) (s : Service)
    → HasBoundedStale s
    → HasBoundedStale (get_or_create_breaker now operation s)
unfolding get_or_create_breaker
create_keeps now operation s h = elim (Bool-cases (has operation s.breakers)) [
  | inl known ↦ rw known (record { distinct = h.distinct; bounded = h.bounded })
  | inr fresh ↦ rw fresh (record { distinct = h.distinct; bounded = h.bounded })
]

Settles-keeps :
    (later : ℕ) (key : String) (s s' : Service)
    → Settles later key s s'
    → HasBoundedStale s
    → HasBoundedStale s'
Settles-keeps later key s s' (inl e) h = subst HasBoundedStale (sym e) h
Settles-keeps later key s s' (inr (inl e)) h = subst HasBoundedStale (sym e) (delete_keeps key s h)
Settles-keeps later key s s' (inr (inr (secret, e))) h =
    subst HasBoundedStale (sym e) (update_keeps later key secret s h)

disabled_state :
    (now later : ℕ) (operation consumer_id : String) (action : Outcome (Option ConsumerSecret))
    (fire : Fire (Option ConsumerSecret)) (redis : RedisAnswer) (s : Service)
    → s.config.enabled ≡ false
    → (wrap_kong_consumer_operation now later operation consumer_id action fire redis s).0 ≡ s
unfolding wrap_kong_consumer_operation
disabled_state now later operation consumer_id action fire redis s off = ground arith

pub consumer_keeps :
    (now later : ℕ) (operation consumer_id : String) (action : Outcome (Option ConsumerSecret))
    (fire : Fire (Option ConsumerSecret)) (redis : RedisAnswer) (s : Service)
    → HasBoundedStale s
    → HasBoundedStale
        (wrap_kong_consumer_operation now later operation consumer_id action fire redis s).0
consumer_keeps now later operation consumer_id action fire redis s h =
    elim (Bool-cases s.config.enabled) [
      | inl on ↦
          Settles-keeps later (cache_key consumer_id) _ _
            (settled_state now later operation consumer_id action fire redis s on)
            (create_keeps now operation s h)
      | inr off ↦
          subst HasBoundedStale
            (sym (disabled_state now later operation consumer_id action fire redis s off)) h
    ]

-- The breakers.
pub create_tracks :
    (now : ℕ) (operation : String) (s : Service)
    → HasTrackedBreakers s
    → HasTrackedBreakers (get_or_create_breaker now operation s)
unfolding get_or_create_breaker
create_tracks now operation s h q =
    let used = has-set operation q now s.last_used in
    let made = has-set operation q (options_for operation s) s.breakers in
    ground (arith, h q, eq_iff operation q)

Settles-tracks :
    (later : ℕ) (key : String) (s s' : Service)
    → Settles later key s s'
    → HasTrackedBreakers s
    → HasTrackedBreakers s'
unfolding update_stale_cache
Settles-tracks later key s s' (inl e) h = subst HasTrackedBreakers (sym e) h
Settles-tracks later key s s' (inr (inl e)) h = subst HasTrackedBreakers (sym e) h
Settles-tracks later key s s' (inr (inr (secret, e))) h = subst HasTrackedBreakers (sym e) h

pub consumer_tracks :
    (now later : ℕ) (operation consumer_id : String) (action : Outcome (Option ConsumerSecret))
    (fire : Fire (Option ConsumerSecret)) (redis : RedisAnswer) (s : Service)
    → HasTrackedBreakers s
    → HasTrackedBreakers
        (wrap_kong_consumer_operation now later operation consumer_id action fire redis s).0
consumer_tracks now later operation consumer_id action fire redis s h =
    elim (Bool-cases s.config.enabled) [
      | inl on ↦
          Settles-tracks later (cache_key consumer_id) _ _
            (settled_state now later operation consumer_id action fire redis s on)
            (create_tracks now operation s h)
      | inr off ↦
          subst HasTrackedBreakers
            (sym (disabled_state now later operation consumer_id action fire redis s off)) h
    ]
