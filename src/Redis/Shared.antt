-- ===== src/Redis/Shared.antt =====
-- The shared cache (src/services/cache/shared-redis-cache.ts) as the cache of the adapter.
use Prim.Native.String.{◌++◌ as text_append}
use authentication_v.Base.{ℕ, ◌≡◌, ◌⊎◌, inl, inr, none, some, String}
use authentication_v.Kong.{ConsumerSecret}
use authentication_v.Kong.Calls.{KongCache}
use authentication_v.Redis.Timeout.{fulfilled}
use authentication_v.Redis.Server.{Server, Codec}
use authentication_v.Redis.Cache.{CacheConfig, RedisCache, Moment, key_prefix, ask_breaker}
use authentication_v.Redis.Operations.{get, set}
use authentication_v.Redis.Keys.{read_allowed-Before, read_allowed-value, set_allowed-after}

module _ {R : Type 0} (server : Server R) (codec : Codec) (config : CacheConfig) where
  -- The server stores, under the key's name in Redis, a text of the value.
  abbrev pub RedisHolds : String → ConsumerSecret → RedisCache R → Type 0
  RedisHolds key v c =
      (t : String) × (codec.decode t ≡ fulfilled v)
      × server.Stored (text_append key_prefix key) t c.server

  pub shared_read_held :
      (m : Moment) (key : String) (c : RedisCache R) (v : ConsumerSecret)
      → (get server codec config m key c).1 ≡ some v
      → RedisHolds key v c
  unfolding get ask_breaker
  shared_read_held m key c v h =
      read_allowed-value server codec config m (text_append key_prefix key)
        (ask_breaker config m.asked c) v h

  pub shared_held_before_read :
      (m : Moment) (key other : String) (c : RedisCache R) (v : ConsumerSecret)
      → RedisHolds other v (get server codec config m key c).0
      → RedisHolds other v c
  unfolding get ask_breaker
  shared_held_before_read m key other c v (t, d, s) = (
    t,
    d,
    read_allowed-Before server codec config m (text_append key_prefix key)
        (ask_breaker config m.asked c) (text_append key_prefix other) t s,
  )

  pub shared_held_after_write :
      (m : Moment) (key other : String) (c : RedisCache R) (w v : ConsumerSecret)
      → RedisHolds other v (set server codec config m key w none c)
      → ((other ≡ key) × (v ≡ w)) ⊎ RedisHolds other v c
  unfolding set ask_breaker
  shared_held_after_write m key other c w v (t, d, s) =
      elim (set_allowed-after server codec config m key w none (ask_breaker config m.asked c) other
        t s) [
          | inl same ↦ inl (same.1, cc (d, same.2, codec.decode-encode w))
          | inr before ↦ inr (t, d, before)
        ]

-- The cache over a server, where `moment` tells what the operations meet at each instant.
abbrev pub shared_cache :
    {R : Type 0} → Server R → Codec → CacheConfig → (ℕ → Moment) → KongCache (RedisCache R)
shared_cache server codec config moment = record {
  read = λ now key c. get server codec config (moment now) key c;
  write = λ now key v c. set server codec config (moment now) key v none c;
  Holds = RedisHolds server codec config;
  read_held = λ now key c v h. shared_read_held server codec config (moment now) key c v h;
  held_before_read = λ now key other c v h.
      shared_held_before_read server codec config (moment now) key other c v h;
  held_after_write = λ now key other c w v h.
      shared_held_after_write server codec config (moment now) key other c w v h;
}
