-- ===== src/Redis/Failures.antt =====
-- What the shared cache (src/services/cache/shared-redis-cache.ts) does when it is refused, shut down, or
-- cannot reconnect.
use Prim.Native.String.{◌++◌ as text_append}
use authentication_v.Base.{
  ℕ, ◌+◌, ◌≡◌, refl, Bool, true, false, Option, none, String, arith, if_both,
}
use authentication_v.Breaker.Cache.{can_execute}
use authentication_v.Kong.{ConsumerSecret}
use authentication_v.Redis.Detector.{
  is_connection_error, detect_cache_error, first_match, matches, occurs_any, occurs, matches_here,
  strip,
}
use authentication_v.Redis.Timeout.{Settled, failed, Done}
use authentication_v.Redis.Server.{Server, Codec}
use authentication_v.Redis.Cache.{
  CacheConfig, RedisCache, Moment, key_prefix, stale_key_prefix, ttl_of, ask_breaker, catch,
  is_polluting, ensure_connected, command_on, run,
}
use authentication_v.Redis.Operations.{
  get, get_stale, set, set_stale, delete, get_command, set_command, set_stale_command,
  delete_command, read_allowed, read_reply, failed_read, command_reply, set_allowed,
  set_stale_allowed, delete_allowed,
}

shutdown_message-quiet : is_connection_error "Cache is shutting down - operation rejected" ≡ false
unfolding is_connection_error detect_cache_error first_match matches occurs_any occurs matches_here
    strip
shutdown_message-quiet = refl

module _ {R : Type 0} where
  -- The counts of a request that the breaker refuses.
  abbrev pub refused_request : RedisCache R → RedisCache R
  refused_request c = record c {
    circuit_breaker = record c.circuit_breaker {
      total_requests = c.circuit_breaker.total_requests + 1;
      rejected_requests = c.circuit_breaker.rejected_requests + 1;
    };
  }

module _ {R : Type 0} (server : Server R) (codec : Codec) (config : CacheConfig) where
  ask_breaker-refused :
      (m : Moment) (c : RedisCache R)
      → (ask_breaker config m.asked c).1 ≡ false
      → ask_breaker config m.asked c ≡ (refused_request c, false)
  unfolding ask_breaker can_execute
  ask_breaker-refused m c h = ground (arith, h)

  -- While the breaker refuses requests, a read finds nothing, a write and a deletion do nothing, and all
  -- that changes in the cache, the server included, is that the breaker counts one refused request.
  pub refused_untouched :
      (m : Moment) (key : String) (v : ConsumerSecret) (ttl : Option ℕ) (c : RedisCache R)
      → (ask_breaker config m.asked c).1 ≡ false
      → (get server codec config m key c ≡ (refused_request c, none))
        × (get_stale server codec config m key c ≡ (refused_request c, none))
        × (set server codec config m key v ttl c ≡ refused_request c)
        × (set_stale server codec config m key v c ≡ refused_request c)
        × (delete server codec config m key c ≡ refused_request c)
  unfolding get get_stale set set_stale delete read_allowed set_allowed set_stale_allowed
      delete_allowed
  refused_untouched m key v ttl c h =
      let e = ask_breaker-refused m c h in (rw e refl, rw e refl, rw e refl, rw e refl, rw e refl)

  run-shutting_down :
      {A : Type 0} (m : Moment) (command : R → R × Settled A) (c : RedisCache R)
      → m.shutting_down ≡ true
      → run server config m command c ≡ (c, failed "Cache is shutting down - operation rejected")
  unfolding run ensure_connected command_on
  run-shutting_down m command c h = rw h refl

  catch-shutting_down :
      (m : Moment) (c : RedisCache R)
      → catch config m.ended "Cache is shutting down - operation rejected" c ≡ c
  unfolding catch
  catch-shutting_down m c = rw shutdown_message-quiet refl

  shut_read :
      (m : Moment) (name : String) (p : RedisCache R × Bool)
      → m.shutting_down ≡ true
      → ((read_allowed server codec config m name p).1 ≡ none)
        × ((read_allowed server codec config m name p).0.server ≡ p.0.server)
  unfolding read_allowed read_reply failed_read
  shut_read m name (c, false) h = (refl, refl)
  shut_read m name (c, true) h =
      rw (run-shutting_down m (get_command server codec config m name) c h, catch-shutting_down m c)
        (refl, refl)

  shut_command :
      (m : Moment) (command : R → R × Settled Done) (c : RedisCache R)
      → m.shutting_down ≡ true
      → command_reply server codec config m (run server config m command c) ≡ c
  unfolding command_reply
  shut_command m command c h = rw (run-shutting_down m command c h) (catch-shutting_down m c)

  shut_set :
      (m : Moment) (key : String) (v : ConsumerSecret) (ttl : Option ℕ) (p : RedisCache R × Bool)
      → m.shutting_down ≡ true
      → set_allowed server codec config m key v ttl p ≡ p.0
  unfolding set_allowed
  shut_set m key v ttl (c, false) h = refl
  shut_set m key v ttl (c, true) h =
      if_both (λ (c' : RedisCache R). c' ≡ c) (is_polluting key v) refl
        (shut_command m (set_command server codec config m key v (ttl_of ttl config.ttl_seconds)) c
          h)

  shut_set_stale :
      (m : Moment) (key : String) (v : ConsumerSecret) (p : RedisCache R × Bool)
      → m.shutting_down ≡ true
      → set_stale_allowed server codec config m key v p ≡ p.0
  unfolding set_stale_allowed
  shut_set_stale m key v (c, false) h = refl
  shut_set_stale m key v (c, true) h =
      shut_command m (set_stale_command server codec config m key v) c h

  shut_delete :
      (m : Moment) (key : String) (p : RedisCache R × Bool)
      → m.shutting_down ≡ true
      → delete_allowed server codec config m key p ≡ p.0
  unfolding delete_allowed
  shut_delete m key (c, false) h = refl
  shut_delete m key (c, true) h =
      shut_command m (delete_command server codec config m (text_append key_prefix key)) c h

  -- While the service shuts down, no operation on a key reaches the server: a read finds nothing and
  -- leaves the server as it was, and a write or a deletion changes nothing but what the breaker records
  -- of the request.
  pub shutdown_untouched :
      (m : Moment) (key : String) (v : ConsumerSecret) (ttl : Option ℕ) (c : RedisCache R)
      → m.shutting_down ≡ true
      → ((get server codec config m key c).1 ≡ none)
        × ((get server codec config m key c).0.server ≡ c.server)
        × ((get_stale server codec config m key c).1 ≡ none)
        × ((get_stale server codec config m key c).0.server ≡ c.server)
        × (set server codec config m key v ttl c ≡ (ask_breaker config m.asked c).0)
        × (set_stale server codec config m key v c ≡ (ask_breaker config m.asked c).0)
        × (delete server codec config m key c ≡ (ask_breaker config m.asked c).0)
  unfolding get get_stale set set_stale delete ask_breaker
  shutdown_untouched m key v ttl c h =
      let asked = ask_breaker config m.asked c in
      let read = shut_read m (text_append key_prefix key) asked h in
      let stale = shut_read m (text_append stale_key_prefix key) asked h in
      (
        read.0,
        read.1,
        stale.0,
        stale.1,
        shut_set m key v ttl asked h,
        shut_set_stale m key v asked h,
        shut_delete m key asked h,
      )
