-- ===== src/Kong/Lookup.antt =====
-- The secrets that the adapter returns and caches, and the in-memory cache as its cache.
use text.Mathlib.TextLemmas.{append_cancel_left}
use authentication_v.Base.{
  ℕ, ◌≡◌, refl, Bool, true, false, ◌||◌, not, Option, none, some, String, arith, inl, inr, sym,
  subst, List, Bool-cases, Option-cases,
}
use authentication_v.Kong.Types.{ConsumerSecret, Outcome, returned, Fire, RedisAnswer}
use authentication_v.Kong.Fallback.{cache_key, is_mismatch}
use authentication_v.Kong.Isolation.{
  BelongsTo, match-BelongsTo, wrap_kong_consumer_operation-BelongsTo,
}
use authentication_v.Kong.Adapter.{
  Action, ModeStrategy, Response, fetch_secret, create_secret, keep_secret,
}
use authentication_v.Kong.Calls.{
  KongCache, Adapter, get_consumer_secret, create_consumer_secret, run_action, read_cache,
  write_cache,
}

-- What an action puts in the cache belongs to the consumer.
abbrev pub KeepsOwn : String → Action → Type 0
KeepsOwn consumer_id action =
    (secret : ConsumerSecret) → action.0 ≡ some secret → is_mismatch secret consumer_id ≡ false

keep_own :
    (consumer_id : String) (found : Option ConsumerSecret)
    → KeepsOwn consumer_id (keep_secret consumer_id found)
unfolding keep_secret
keep_own consumer_id none secret e = absurd (ground arith)
keep_own consumer_id (some v) secret e = ground arith

pub fetch_secret-KeepsOwn :
    (strategy : ModeStrategy) (request : String → Outcome (Response (Option (List ConsumerSecret))))
    (consumer_id : String)
    → KeepsOwn consumer_id (fetch_secret strategy request consumer_id)
unfolding fetch_secret
fetch_secret-KeepsOwn strategy request consumer_id secret e = ground (arith, keep_own consumer_id)

pub create_secret-KeepsOwn :
    (strategy : ModeStrategy) (post : String → ℕ → Outcome (Response (Option ConsumerSecret)))
    (consumer_id : String)
    → KeepsOwn consumer_id (create_secret strategy post consumer_id)
unfolding create_secret
create_secret-KeepsOwn strategy post consumer_id secret e = ground (arith, keep_own consumer_id)

cache_key_injective : (a b : String) → cache_key a ≡ cache_key b → a ≡ b
unfolding cache_key
cache_key_injective a b e = append_cancel_left "consumer_secret:" a b e

-- Under the key of a consumer, the cache holds no other consumer's secret.
abbrev pub IsOwned : {S : Type 0} → KongCache S → Option S → Type 0
IsOwned ops none = Unit
IsOwned ops (some s) =
    (consumer_id : String) (v : ConsumerSecret)
    → ops.Holds (cache_key consumer_id) v s
    → BelongsTo consumer_id v

module _ {S : Type 0} (ops : KongCache S) where
  read_owned :
      (now : ℕ) (consumer_id : String) (c : Option S) (v : ConsumerSecret)
      → IsOwned ops c
      → (read_cache ops now (cache_key consumer_id) c).1 ≡ some v
      → BelongsTo consumer_id v
  unfolding read_cache
  read_owned now consumer_id none v h e = absurd (ground arith)
  read_owned now consumer_id (some s) v h e =
      h consumer_id v (ops.read_held now (cache_key consumer_id) s v e)

  read_keeps :
      (now : ℕ) (key : String) (c : Option S)
      → IsOwned ops c
      → IsOwned ops (read_cache ops now key c).0
  unfolding read_cache
  read_keeps now key none h = tt
  read_keeps now key (some s) h = λ consumer_id v held.
      h consumer_id v (ops.held_before_read now key (cache_key consumer_id) s v held)

  write_keeps :
      (now : ℕ) (consumer_id : String) (kept : Option ConsumerSecret) (c : Option S)
      → ((secret : ConsumerSecret) → kept ≡ some secret → is_mismatch secret consumer_id ≡ false)
      → IsOwned ops c
      → IsOwned ops (write_cache ops now (cache_key consumer_id) kept c)
  unfolding write_cache
  write_keeps now consumer_id none c own h = h
  write_keeps now consumer_id (some w) none own h = tt
  write_keeps now consumer_id (some w) (some s) own h = λ other v held.
      elim (ops.held_after_write now (cache_key consumer_id) (cache_key other) s w v held) [
        | inl (key, value) ↦
            let same = cache_key_injective other consumer_id key in
            subst (λ c. BelongsTo c v) (sym same)
              (subst (BelongsTo consumer_id) (sym value)
                (match-BelongsTo consumer_id w (own w refl)))
        | inr before ↦ h other v before
      ]

  run_keeps :
      (now later : ℕ) (operation consumer_id : String) (action : Action)
      (fire : Outcome (Option ConsumerSecret) → Fire (Option ConsumerSecret)) (runs : Bool)
      (redis : RedisAnswer) (a : Adapter S)
      → KeepsOwn consumer_id action
      → IsOwned ops a.cache
      → IsOwned ops
          (run_action ops now later operation consumer_id action fire runs redis a).0.cache
  unfolding run_action
  run_keeps now later operation consumer_id action fire runs redis a own h =
      elim (Bool-cases (runs || not a.circuit_breaker.config.enabled)) [
        | inl ran ↦ rw ran (write_keeps later consumer_id action.0 a.cache own h)
        | inr idle ↦ rw idle h
      ]

  run_owned :
      (now later : ℕ) (operation consumer_id : String) (action : Action)
      (fire : Outcome (Option ConsumerSecret) → Fire (Option ConsumerSecret)) (runs : Bool)
      (redis : RedisAnswer) (a : Adapter S) (secret : ConsumerSecret)
      → a.circuit_breaker.config.enabled ≡ true
      → (run_action ops now later operation consumer_id action fire runs redis a).1
        ≡ returned (some secret)
      → BelongsTo consumer_id secret
  unfolding run_action
  run_owned now later operation consumer_id action fire runs redis a secret on e =
      wrap_kong_consumer_operation-BelongsTo now later operation consumer_id action.1
        (fire action.1) redis a.circuit_breaker on e

-- `getConsumerSecret` never gives out the secret of another consumer, and its cache stays free of
-- them: while breakers are enabled, from a cache that holds under each consumer's key no other
-- consumer's secret, whatever Kong, the strategy and the breaker library answer, a returned secret
-- names no consumer but the one that was asked for and the cache is as before in this respect.
pub get_consumer_secret-BelongsTo :
    {S : Type 0} (ops : KongCache S) (now later : ℕ) (consumer_id : String)
    (strategy : ModeStrategy) (request : String → Outcome (Response (Option (List ConsumerSecret))))
    (fire : Outcome (Option ConsumerSecret) → Fire (Option ConsumerSecret)) (runs : Bool)
    (redis : RedisAnswer) (a : Adapter S)
    → a.circuit_breaker.config.enabled ≡ true
    → IsOwned ops a.cache
    → let (a', result) =
        get_consumer_secret ops now later consumer_id
          (fetch_secret strategy request consumer_id)
          fire
          runs
          redis
          a in
      IsOwned ops a'.cache
      × ((secret : ConsumerSecret) → result ≡ returned (some secret) → BelongsTo consumer_id secret)
unfolding get_consumer_secret
get_consumer_secret-BelongsTo ops now later consumer_id strategy request fire runs redis a on h =
    let action = fetch_secret strategy request consumer_id in
    let c = read_cache ops now (cache_key consumer_id) a.cache in
    let a' = record a { cache = c.0 } in
    let own = fetch_secret-KeepsOwn strategy request consumer_id in
    let kept = read_keeps ops now (cache_key consumer_id) a.cache h in
    elim (Option-cases c.1) [
      | inl missed ↦ rw missed (
        run_keeps ops now later "getConsumerSecret" consumer_id action fire runs redis a' own kept,
        λ secret e.
            run_owned ops now later "getConsumerSecret" consumer_id action fire runs redis a' secret
              on e,
      )
      | inr (v, found) ↦ rw found (
        kept,
        λ secret e.
            subst (BelongsTo consumer_id) (returned_same v secret e)
              (read_owned ops now consumer_id a.cache v h found),
      )
    ]
  where
    returned_same : (v w : ConsumerSecret) → returned (some v) ≡ returned (some w) → v ≡ w
    returned_same v w e = cc

-- `createConsumerSecret` neither gives out nor caches a secret of another consumer: while breakers
-- are enabled, from a cache that holds under each consumer's key no other consumer's secret,
-- whatever is answered, a returned secret names no consumer but the one that was asked for and the
-- cache is as before in this respect.
pub create_consumer_secret-BelongsTo :
    {S : Type 0} (ops : KongCache S) (now later : ℕ) (consumer_id : String)
    (strategy : ModeStrategy) (post : String → ℕ → Outcome (Response (Option ConsumerSecret)))
    (fire : Outcome (Option ConsumerSecret) → Fire (Option ConsumerSecret)) (runs : Bool)
    (redis : RedisAnswer) (a : Adapter S)
    → a.circuit_breaker.config.enabled ≡ true
    → IsOwned ops a.cache
    → let (a', result) =
        create_consumer_secret ops now later consumer_id
          (create_secret strategy post consumer_id)
          fire
          runs
          redis
          a in
      IsOwned ops a'.cache
      × ((secret : ConsumerSecret) → result ≡ returned (some secret) → BelongsTo consumer_id secret)
unfolding create_consumer_secret
create_consumer_secret-BelongsTo ops now later consumer_id strategy post fire runs redis a on h =
    let action = create_secret strategy post consumer_id in
    (
      run_keeps ops now later "createConsumerSecret" consumer_id action fire runs redis a
          (create_secret-KeepsOwn strategy post consumer_id) h,
      λ secret e.
          run_owned ops now later "createConsumerSecret" consumer_id action fire runs redis a secret
            on e,
    )
