-- ===== src/Redis/Keys.antt =====
-- The reads and the writes of the shared cache (src/services/cache/shared-redis-cache.ts) under the names of
-- the keys in Redis.
use Prim.Native.String.{◌++◌ as text_append}
use text.Mathlib.TextLemmas.{append_cancel_left}
use authentication_v.Base.{
  ℕ, ◌≡◌, ◌≢◌, ◌⊎◌, inl, inr, refl, ap, subst, Bool, true, false, Option, none, some, String, arith,
  str_eq, if_both, if_split,
}
use authentication_v.Kong.{ConsumerSecret}
use authentication_v.Redis.Timeout.{Settled, fulfilled, failed, Done, with_operation_timeout}
use authentication_v.Redis.Server.{Server, Codec}
use authentication_v.Redis.Cache.{
  CacheConfig, RedisCache, Moment, key_prefix, stale_key_prefix, ttl_of, stale_ttl, is_polluting,
  note_success, record_hit, ensure_connected, run,
}
use authentication_v.Redis.Operations.{
  get_command, failed_read, parsed, read_reply, read_allowed, command_reply, store_command,
  set_command, set_allowed,
}
use authentication_v.Redis.Detector.{codes}
use authentication_v.Redis.Messages.{codes-append}
use authentication_v.Redis.Contents.{
  Before, catch-server, ensure_connected-Before, run-before, run-Before_only, run-reply,
  and_then-Before,
}

-- A key of the cache is not a key of the stale cache.
pub prefixes_apart : (a b : String) → text_append key_prefix a ≢ text_append stale_key_prefix b
prefixes_apart a b e =
    absurd (ground (arith, ap codes e, codes-append key_prefix a, codes-append stale_key_prefix b))

with_operation_timeout-reply :
    {A : Type 0} (late : Bool) (operation : String) (ms : ℕ) (reply : Settled A) (a : A)
    → with_operation_timeout late operation ms reply ≡ fulfilled a
    → reply ≡ fulfilled a
unfolding with_operation_timeout
with_operation_timeout-reply true operation ms reply a h = absurd (cc h)
with_operation_timeout-reply false operation ms reply a h = h

module _ {R : Type 0} (server : Server R) (codec : Codec) (config : CacheConfig) where
  parsed-server :
      (m : Moment) (d : Settled ConsumerSecret) (c : RedisCache R)
      → (parsed server codec config m d c).0.server ≡ c.server
  unfolding parsed failed_read
  parsed-server m (fulfilled v) c = refl
  parsed-server m (failed e) c = catch-server config m.ended e c

  read_reply-server :
      (m : Moment) (p : RedisCache R × Settled (Option String))
      → (read_reply server codec config m p).0.server ≡ p.0.server
  unfolding read_reply failed_read note_success
  read_reply-server m (c, failed e) = catch-server config m.ended e c
  read_reply-server m (c, fulfilled none) = refl
  read_reply-server m (c, fulfilled (some cached)) =
      let hit = note_success config m.ended (record_hit m.took c) in
      if_both (λ (q : RedisCache R × Option ConsumerSecret). q.0.server ≡ c.server)
        (str_eq cached "") refl (parsed-server m (codec.decode cached) hit)

  parsed-value :
      (m : Moment) (d : Settled ConsumerSecret) (c : RedisCache R) (v : ConsumerSecret)
      → (parsed server codec config m d c).1 ≡ some v
      → d ≡ fulfilled v
  unfolding parsed failed_read
  parsed-value m (fulfilled w) c v h = cc h
  parsed-value m (failed e) c v h = absurd (cc h)

  -- A value that a read returns was decoded from the text that the command replied.
  read_reply-value :
      (m : Moment) (p : RedisCache R × Settled (Option String)) (v : ConsumerSecret)
      → (read_reply server codec config m p).1 ≡ some v
      → (t : String) × (p.1 ≡ fulfilled (some t)) × (codec.decode t ≡ fulfilled v)
  unfolding read_reply failed_read
  read_reply-value m (c, failed e) v h = absurd (cc h)
  read_reply-value m (c, fulfilled none) v h = absurd (cc h)
  read_reply-value m (c, fulfilled (some cached)) v h =
      let hit = note_success config m.ended (record_hit m.took c) in
      (
        cached,
        refl,
        parsed-value m (codec.decode cached) hit v (
            if_both
              (λ (q : RedisCache R × Option ConsumerSecret).
                q.1 ≡ some v → (parsed server codec config m (codec.decode cached) hit).1 ≡ some v)
              (str_eq cached "") (λ n. absurd (cc n)) (λ y. y) h),
      )

  get_command-Before :
      (m : Moment) (redis_key key t : String) (r : R)
      → Before server config key t (get_command server codec config m redis_key r).0 r
  unfolding get_command
  get_command-Before m redis_key key t r s = server.stored_before_get redis_key key t r s

  get_command-stored :
      (m : Moment) (redis_key : String) (r : R) (t : String)
      → (get_command server codec config m redis_key r).1 ≡ fulfilled (some t)
      → server.Stored redis_key t r
  unfolding get_command
  get_command-stored m redis_key r t h =
      server.get_stored redis_key r t
        (with_operation_timeout-reply m.command_late "GET" _ _ (some t) h)

  -- The texts before a read were those after it.
  pub read_allowed-Before :
      (m : Moment) (redis_key : String) (p : RedisCache R × Bool) (key t : String)
      → Before server config key t
          (read_allowed server codec config m redis_key p).0.server
          p.0.server
  unfolding read_allowed
  read_allowed-Before m redis_key (c, false) key t s = s
  read_allowed-Before m redis_key (c, true) key t s =
      let command = get_command server codec config m redis_key in
      let ran : server.Stored key t (run server config m command c).0.server =
        subst (server.Stored key t) (read_reply-server m (run server config m command c)) s in
      run-Before_only server config m command c key t (get_command-Before m redis_key key t) ran

  pub read_allowed-value :
      (m : Moment) (redis_key : String) (p : RedisCache R × Bool) (v : ConsumerSecret)
      → (read_allowed server codec config m redis_key p).1 ≡ some v
      → (t : String) × (codec.decode t ≡ fulfilled v) × server.Stored redis_key t p.0.server
  unfolding read_allowed
  read_allowed-value m redis_key (c, false) v h = absurd (cc h)
  read_allowed-value m redis_key (c, true) v h =
      let command = get_command server codec config m redis_key in
      let read = read_reply-value m (run server config m command c) v h in
      let replied = run-reply server config m command c (some read.0) read.1 in
      (
        read.0,
        read.2,
        ensure_connected-Before server config m c redis_key read.0 (
            get_command-stored m redis_key (ensure_connected server config m c).0.server read.0
              replied),
      )

  pub command_reply-server :
      (m : Moment) (p : RedisCache R × Settled Done)
      → (command_reply server codec config m p).server ≡ p.0.server
  unfolding command_reply note_success
  command_reply-server m (c, failed e) = catch-server config m.ended e c
  command_reply-server m (c, fulfilled _) = refl

  -- SET and EXPIRE of a key make the server store the value there, and nothing else.
  pub store_command-after :
      (redis_key : String) (v : ConsumerSecret) (ttl : ℕ) (r : R) (key t : String)
      → server.Stored key t (store_command server codec config redis_key v ttl r).0
      → ((key ≡ redis_key) × (t ≡ codec.encode v)) ⊎ server.Stored key t r
  unfolding store_command
  store_command-after redis_key v ttl r key t s =
      server.stored_before_set redis_key (codec.encode v) key t r (
        and_then-Before server config (server.set redis_key (codec.encode v) r)
          (λ r'. server.expire redis_key ttl r') key t
          (λ r'. server.stored_before_expire redis_key ttl key t r') s)

  set_command-after :
      (m : Moment) (key : String) (v : ConsumerSecret) (ttl : ℕ) (r : R) (other t : String)
      → server.Stored
          (text_append key_prefix other)
          t
          (set_command server codec config m key v ttl r).0
      → ((other ≡ key) × (t ≡ codec.encode v)) ⊎ server.Stored (text_append key_prefix other) t r
  unfolding set_command
  set_command-after m key v ttl r other t s =
      let fresh = store_command server codec config (text_append key_prefix key) v ttl r in
      let stale =
        store_command server codec config (text_append stale_key_prefix key) v (stale_ttl config) in
      let name = text_append key_prefix other in
      let stale_kept : (r' : R) → server.Stored name t (stale r').0 → server.Stored name t r' =
        λ r' q.
          elim (store_command-after (text_append stale_key_prefix key) v (stale_ttl config) r' name
            t q) [ inl same ↦ absurd (prefixes_apart other key same.0) | inr before ↦ before ] in
      elim (store_command-after (text_append key_prefix key) v ttl r name t
        (and_then-Before server config fresh stale name t stale_kept s)) [
          | inl same ↦ inl (append_cancel_left key_prefix other key same.0, same.1)
          | inr before ↦ inr before
        ]

  pub set_allowed-after :
      (m : Moment) (key : String) (v : ConsumerSecret) (ttl : Option ℕ) (p : RedisCache R × Bool)
      (other t : String)
      → server.Stored
          (text_append key_prefix other)
          t
          (set_allowed server codec config m key v ttl p).server
      → ((is_polluting key v ≡ false) × (other ≡ key) × (t ≡ codec.encode v))
        ⊎ server.Stored (text_append key_prefix other) t p.0.server
  unfolding set_allowed
  set_allowed-after m key v ttl (c, false) other t s = inr s
  set_allowed-after m key v ttl (c, true) other t s =
      let command = set_command server codec config m key v (ttl_of ttl config.ttl_seconds) in
      let name = text_append key_prefix other in
      let Goal : Type 0 =
        ((is_polluting key v ≡ false) × (other ≡ key) × (t ≡ codec.encode v))
        ⊎ server.Stored name t c.server in
      if_split (λ (c' : RedisCache R). server.Stored name t c'.server → Goal) (is_polluting key v)
        (λ _ q. inr q)
        (λ clean q.
          elim (run-before server config m command c name t
            (λ r h. set_command-after m key v (ttl_of ttl config.ttl_seconds) r other t h)
            (subst (server.Stored name t) (command_reply-server m (run server config m command c))
              q)) [ inl same ↦ inl (clean, same.0, same.1) | inr before ↦ inr before ])
        s
