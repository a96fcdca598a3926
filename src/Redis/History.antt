-- ===== src/Redis/History.antt =====
-- Courses of operations of the shared cache (src/services/cache/shared-redis-cache.ts).
use Prim.Native.String.{◌++◌ as text_append}
use authentication_v.Base.{
  ℕ, ◌≡◌, ◌⊎◌, inl, inr, refl, subst, Bool, true, false, Option, some, String, List, [], ◌∷◌,
}
use authentication_v.Kong.{ConsumerSecret}
use authentication_v.Redis.Timeout.{Settled, fulfilled, failed, Done}
use authentication_v.Redis.Server.{Server, Codec}
use authentication_v.Redis.Cache.{
  CacheConfig, RedisCache, Moment, key_prefix, stale_key_prefix, is_polluting, ask_breaker,
  stale_ttl, note_success, note_failure, connect_commands, run,
}
use authentication_v.Redis.Operations.{
  get, get_stale, set, set_stale, delete, connect, is_healthy, reset_circuit_breaker,
  delete_allowed, delete_command, set_stale_allowed, set_stale_command, connected, ping_reply,
  command_reply,
}
use authentication_v.Redis.Contents.{Before, connect_commands-Before, run-Before_only}
use authentication_v.Redis.Keys.{
  read_allowed-Before, set_allowed-after, store_command-after, command_reply-server, prefixes_apart,
}
use authentication_v.Redis.Shared.{RedisHolds, shared_read_held}

-- The calls that a client makes, each with what it meets.
pub data Call : Type 0 where
  reads : Moment → String → Call
  reads_stale : Moment → String → Call
  writes : Moment → String → ConsumerSecret → Option ℕ → Call
  writes_stale : Moment → String → ConsumerSecret → Call
  deletes : Moment → String → Call
  connects : Moment → Call
  pings : Moment → Call
  resets : ℕ → Call

-- The values that the calls write under a key, past the guard of `set`.
pub data IsWritten (key : String) (v : ConsumerSecret) : List Call → Type 0 where
  here :
      {m : Moment} {ttl : Option ℕ} {calls : List Call}
      → is_polluting key v ≡ false
      → IsWritten key v (writes m key v ttl ∷ calls)
  there : {call : Call} {calls : List Call} → IsWritten key v calls → IsWritten key v (call ∷ calls)

IsWritten-here :
    (m : Moment) (k : String) (w : ConsumerSecret) (ttl : Option ℕ) (key : String)
    (v : ConsumerSecret) (calls : List Call)
    → is_polluting k w ≡ false
    → key ≡ k
    → v ≡ w
    → IsWritten key v (writes m k w ttl ∷ calls)
IsWritten-here m k w ttl key v calls clean same_key same_value =
    rw same_key (rw same_value (here {m = m} {ttl = ttl} {calls = calls} clean))

module _ {R : Type 0} (server : Server R) (codec : Codec) (config : CacheConfig) where
  unfoldable pub step : Call → RedisCache R → RedisCache R
  unfolding get get_stale set set_stale delete connect is_healthy reset_circuit_breaker
  step (reads m key) c = (get server codec config m key c).0
  step (reads_stale m key) c = (get_stale server codec config m key c).0
  step (writes m key v ttl) c = set server codec config m key v ttl c
  step (writes_stale m key v) c = set_stale server codec config m key v c
  step (deletes m key) c = delete server codec config m key c
  step (connects m) c = (connect server config m c).0
  step (pings m) c = (is_healthy server config m c).0
  step (resets now) c = reset_circuit_breaker now c

  unfoldable pub run_all : List Call → RedisCache R → RedisCache R
  unfolding step
  run_all [] c = c
  run_all (call ∷ calls) c = run_all calls (step call c)

  command_reply-Before :
      (m : Moment) (command : R → R × Settled Done) (c : RedisCache R) (key t : String)
      → ((r : R) → Before server config key t (command r).0 r)
      → Before server config key t
          (command_reply server codec config m (run server config m command c)).server
          c.server
  command_reply-Before m command c key t h s = run-Before_only server config m command c key t h (
      subst (server.Stored key t)
        (command_reply-server server codec config m (run server config m command c)) s)

  delete_allowed-Before :
      (m : Moment) (k : String) (p : RedisCache R × Bool) (key t : String)
      → Before server config key t (delete_allowed server codec config m k p).server p.0.server
  unfolding delete_allowed delete_command
  delete_allowed-Before m k (c, false) key t s = s
  delete_allowed-Before m k (c, true) key t s =
      let name = text_append key_prefix k in
      command_reply-Before m (delete_command server codec config m name) c key t
        (λ r. server.stored_before_del name key t r) s

  set_stale_allowed-Before :
      (m : Moment) (k : String) (v : ConsumerSecret) (p : RedisCache R × Bool) (key t : String)
      → Before server config
          (text_append key_prefix key)
          t
          (set_stale_allowed server codec config m k v p).server
          p.0.server
  unfolding set_stale_allowed set_stale_command
  set_stale_allowed-Before m k v (c, false) key t s = s
  set_stale_allowed-Before m k v (c, true) key t s =
      let name = text_append stale_key_prefix k in
      command_reply-Before m (set_stale_command server codec config m k v) c
        (text_append key_prefix key) t
        (λ r q.
          elim (store_command-after server codec config name v (stale_ttl config) r
            (text_append key_prefix key) t q) [
              | inl same ↦ absurd (prefixes_apart key k same.0)
              | inr before ↦ before
            ])
        s

  connected-Before :
      (m : Moment) (p : RedisCache R × Settled Done) (key t : String)
      → Before server config key t (connected server config m p).0.server p.0.server
  unfolding connected note_success note_failure
  connected-Before m (c, failed e) key t s = s
  connected-Before m (c, fulfilled _) key t s = s

  ping_reply-server :
      (p : RedisCache R × Settled String) → (ping_reply server config p).0.server ≡ p.0.server
  unfolding ping_reply
  ping_reply-server (c, failed e) = refl
  ping_reply-server (c, fulfilled _) = refl

  set-before :
      (m : Moment) (k : String) (w : ConsumerSecret) (ttl : Option ℕ) (key : String)
      (v : ConsumerSecret) (calls : List Call) (c : RedisCache R)
      → RedisHolds server codec config key v (set server codec config m k w ttl c)
      → IsWritten key v (writes m k w ttl ∷ calls) ⊎ RedisHolds server codec config key v c
  unfolding set ask_breaker
  set-before m k w ttl key v calls c (t, d, s) =
      elim (set_allowed-after server codec config m k w ttl (ask_breaker config m.asked c) key t
        s) [
          | inl same ↦ inl (
              IsWritten-here m k w ttl key v calls same.0 same.1
                (cc (d, same.2, codec.decode-encode w)))
          | inr before ↦ inr (t, d, before)
        ]

  step-before :
      (key : String) (v : ConsumerSecret) (call : Call) (calls : List Call) (c : RedisCache R)
      → RedisHolds server codec config key v (step call c)
      → IsWritten key v (call ∷ calls) ⊎ RedisHolds server codec config key v c
  unfolding step get get_stale set_stale delete connect is_healthy reset_circuit_breaker ask_breaker
  step-before key v (reads m k) calls c (t, d, s) = inr (
    t,
    d,
    read_allowed-Before server codec config m (text_append key_prefix k)
        (ask_breaker config m.asked c) _ t s,
  )
  step-before key v (reads_stale m k) calls c (t, d, s) = inr (
    t,
    d,
    read_allowed-Before server codec config m (text_append stale_key_prefix k)
        (ask_breaker config m.asked c) _ t s,
  )
  step-before key v (writes m k w ttl) calls c h = set-before m k w ttl key v calls c h
  step-before key v (writes_stale m k w) calls c (t, d, s) =
      inr (t, d, set_stale_allowed-Before m k w (ask_breaker config m.asked c) key t s)
  step-before key v (deletes m k) calls c (t, d, s) =
      inr (t, d, delete_allowed-Before m k (ask_breaker config m.asked c) _ t s)
  step-before key v (connects m) calls c (t, d, s) =
      let reply = connect_commands server config m c.server in
      inr (
        t,
        d,
        connect_commands-Before server config m c.server _ t
            (connected-Before m (record c { client = true; server = reply.0 }, reply.1) _ t s),
      )
  step-before key v (pings m) calls c (t, d, s) = inr (
    t,
    d,
    run-Before_only server config m server.ping c _ t (λ r. server.stored_before_ping _ t r)
        (subst (server.Stored _ t) (ping_reply-server (run server config m server.ping c)) s),
  )
  step-before key v (resets now) calls c h = inr h

  run_all-before :
      (key : String) (v : ConsumerSecret) (calls : List Call) (c : RedisCache R)
      → RedisHolds server codec config key v (run_all calls c)
      → IsWritten key v calls ⊎ RedisHolds server codec config key v c
  unfolding run_all
  run_all-before key v [] c h = inr h
  run_all-before key v (call ∷ calls) c h = elim (run_all-before key v calls (step call c) h) [
    | inl written ↦ inl (there written)
    | inr held ↦ step-before key v call calls c held
  ]

  -- A value that a read returns, after any course of calls and whatever fails in it, was written under that
  -- very key by a call of `set` whose guard let it pass, unless the server held it there before.
  pub get-IsWritten :
      (key : String) (v : ConsumerSecret) (m : Moment) (calls : List Call) (c : RedisCache R)
      → (get server codec config m key (run_all calls c)).1 ≡ some v
      → IsWritten key v calls ⊎ RedisHolds server codec config key v c
  get-IsWritten key v m calls c h =
      run_all-before key v calls c
        (shared_read_held server codec config m key (run_all calls c) v h)
