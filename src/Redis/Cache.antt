-- ===== src/Redis/Cache.antt =====
-- `SharedRedisCache` of src/services/cache/shared-redis-cache.ts: its state, the connection and the
-- commands, without its log lines. An operation is one step: nothing else happens between its `await`s,
-- except that a reconnection of another caller may be joined.
use Prim.Native.Char.{code}
use authentication_v.Base.{
  ℕ, ◌+◌, ◌-◌, ◌*◌, Bool, true, false, ◌&&◌, not, Option, none, some, String, str_eq, ltb, ◌==◌,
  if◌then◌else◌,
}
use authentication_v.Breaker.Cache.{
  CacheBreaker, CacheBreakerConfig, can_execute, record_success, record_failure,
}
use authentication_v.Reconnect.Manager.{
  Manager, Answer, joins, refused, starts, execute_reconnect, settle,
}
use authentication_v.Kong.{ConsumerSecret}
use authentication_v.Redis.Detector.{is_connection_error}
use authentication_v.Redis.Timeout.{
  Settled, fulfilled, failed, Done, done, Timeouts, with_operation_timeout,
  reconnection_failed_message, exhausted_message,
}
use authentication_v.Redis.Monitor.{Monitor, MonitorConfig, mark_healthy}
use authentication_v.Redis.Server.{Server}

-- The configuration of the class and of its parts.
pub record CacheConfig : Type 0 where
  pub db : ℕ
  pub ttl_seconds : ℕ
  pub stale_data_tolerance_minutes : Option ℕ
  pub circuit_breaker : CacheBreakerConfig
  pub health_monitor : MonitorConfig
  pub operation_timeouts : Timeouts

-- The fields of the class, with the state of the server; `client` tells whether there is one, and
-- `hits` to `operations` are those of `stats`.
pub record RedisCache (R : Type 0) : Type 0 where
  pub client : Bool
  pub is_connected : Bool
  pub hits : ℕ
  pub misses : ℕ
  pub total_latency : ℕ
  pub operations : ℕ
  pub circuit_breaker : CacheBreaker
  pub reconnect_manager : Manager
  pub health_monitor : Option Monitor
  pub server : R

-- What an operation meets: the readings of the clock in it, the time that it took, whether the service
-- is shutting down, which time limits are passed, and how the attempt of another caller ends.
pub record Moment : Type 0 where
  pub asked : ℕ
  pub checked : ℕ
  pub attempted : ℕ
  pub settled : ℕ
  pub ended : ℕ
  pub took : ℕ
  pub shutting_down : Bool
  pub connect_late : Bool
  pub ping_late : Bool
  pub command_late : Bool
  pub joined : Settled Done

abbrev pub key_prefix : String
key_prefix = "auth_service:"

abbrev pub stale_key_prefix : String
stale_key_prefix = "auth_service_stale:"

-- `ttlSeconds || this.config.ttlSeconds`
abbrev pub ttl_of : Option ℕ → ℕ → ℕ
ttl_of none standard = standard
ttl_of (some ttl) standard = if ttl == 0 then standard else ttl

abbrev pub stale_ttl : CacheConfig → ℕ
stale_ttl config = ttl_of config.stale_data_tolerance_minutes 30 * 60

-- One command after another, up to the first that fails.
abbrev pub and_then : {R A B : Type 0} → R × Settled A → (R → R × Settled B) → R × Settled B
and_then (r, failed e) next = (r, failed e)
and_then (r, fulfilled a) next = next r

-- The text after `prefix`, where the key begins with it.
remove_prefix : String → String → Option String
remove_prefix String.[] key = some key
remove_prefix (String.◌∷◌ c prefix) String.[] = none
remove_prefix (String.◌∷◌ c prefix) (String.◌∷◌ d key) =
    let rest = remove_prefix prefix key in if code c == code d then rest else none

is_other : Option String → Option (Option String) → Bool
is_other none consumer = false
is_other (some expected) none = false
is_other (some expected) (some none) = false
is_other (some expected) (some (some id)) = not (str_eq id "") && not (str_eq id expected)

-- The guard of `set`: the key names one consumer and the value another.
unfoldable pub is_polluting : String → ConsumerSecret → Bool
unfolding remove_prefix is_other
is_polluting key secret = is_other (remove_prefix "consumer_secret:" key) secret.consumer

abbrev pub mark_all_healthy : MonitorConfig → ℕ → Option Monitor → Option Monitor
unfolding mark_healthy
mark_all_healthy config now none = none
mark_all_healthy config now (some m) = some (mark_healthy config now m)

abbrev pub is_fulfilled : {A : Type 0} → Settled A → Bool
is_fulfilled (fulfilled a) = true
is_fulfilled (failed e) = false

module _ {R : Type 0} where
  abbrev pub record_hit : ℕ → RedisCache R → RedisCache R
  record_hit took c = record c {
    hits = c.hits + 1;
    total_latency = c.total_latency + took;
    operations = c.operations + 1;
  }

  abbrev pub record_miss : ℕ → RedisCache R → RedisCache R
  record_miss took c = record c {
    misses = c.misses + 1;
    total_latency = c.total_latency + took;
    operations = c.operations + 1;
  }

module _ {R : Type 0} (config : CacheConfig) where
  -- `canExecute` of the breaker.
  unfoldable pub ask_breaker : ℕ → RedisCache R → RedisCache R × Bool
  unfolding can_execute
  ask_breaker now c =
      let asked = can_execute config.circuit_breaker now c.circuit_breaker in
      (record c { circuit_breaker = asked.0 }, asked.1)

  unfoldable pub note_success : ℕ → RedisCache R → RedisCache R
  unfolding record_success
  note_success now c = record c {
    circuit_breaker = record_success config.circuit_breaker now c.circuit_breaker;
  }

  -- `recordFailure` of the breaker, with an error of the given message.
  unfoldable pub note_failure : ℕ → String → RedisCache R → RedisCache R
  unfolding record_failure is_connection_error
  note_failure now error c = record c {
    circuit_breaker =
        record_failure config.circuit_breaker now (is_connection_error error) c.circuit_breaker;
  }

  -- `markConnectionBroken`, with an error.
  unfoldable pub mark_connection_broken : ℕ → String → RedisCache R → RedisCache R
  unfolding note_failure
  mark_connection_broken now error c =
      let broken = record c { is_connected = false } in
      if is_connection_error error then note_failure now error broken else broken

  -- What each `catch` does first.
  unfoldable pub catch : ℕ → String → RedisCache R → RedisCache R
  unfolding mark_connection_broken
  catch now error c = if is_connection_error error then mark_connection_broken now error c else c

module _ {R : Type 0} (server : Server R) (config : CacheConfig) where
  unfoldable pub select_db : R → R × Settled Done
  select_db r = if ltb 0 config.db then server.select config.db r else (r, fulfilled done)

  unfoldable pub connect_command : Moment → R → R × Settled Done
  connect_command m r =
      let reply = server.connect r in
      (
        reply.0,
        with_operation_timeout m.connect_late "CONNECT" config.operation_timeouts.connect reply.1,
      )

  without_reply : Settled String → Settled Done
  without_reply (failed e) = failed e
  without_reply (fulfilled reply) = fulfilled done

  -- The reply is not looked at.
  unfoldable pub ping_command : Moment → R → R × Settled Done
  unfolding without_reply
  ping_command m r =
      let reply = server.ping r in
      (
        reply.0,
        without_reply
            (with_operation_timeout m.ping_late "PING" config.operation_timeouts.ping reply.1),
      )

  -- CONNECT, SELECT where the database is not 0, and PING.
  unfoldable pub connect_commands : Moment → R → R × Settled Done
  unfolding connect_command select_db ping_command
  connect_commands m r = and_then (and_then (connect_command m r) select_db) (ping_command m)

  unfoldable pub attempt : Moment → Manager → Answer → RedisCache R → RedisCache R × Settled Done
  unfolding connect_commands settle exhausted_message
  attempt m manager joins c = (c, m.joined)
  attempt m manager (refused attempts) c = (
    record c { reconnect_manager = manager },
    failed (
        exhausted_message manager.config.max_attempts
          ((manager.last_attempt_time + manager.config.cooldown_ms) - m.checked)),
  )
  attempt m manager (starts delay) c =
      let end = connect_commands m c.server in
      (
        record c {
          server = end.0;
          reconnect_manager = (settle m.settled m.attempted (is_fulfilled end.1) manager).0;
        },
        end.1,
      )

  -- `executeReconnect` of the manager, up to the end of the attempt.
  unfoldable pub reconnect : Moment → RedisCache R → RedisCache R × Settled Done
  unfolding attempt execute_reconnect
  reconnect m c =
      let answer = execute_reconnect m.checked m.attempted c.reconnect_manager in
      attempt m answer.0 answer.1 c

  unfoldable pub after_reconnect :
      Moment → RedisCache R × Settled Done → RedisCache R × Settled Done
  unfolding note_success note_failure
  after_reconnect m (c, fulfilled _) =
      let connected = note_success config m.settled (record c { is_connected = true }) in
      (
        record connected {
          health_monitor = mark_all_healthy config.health_monitor m.settled c.health_monitor;
        },
        fulfilled done,
      )
  after_reconnect m (c, failed e) = (
    note_failure config m.settled e c,
    failed (reconnection_failed_message (if str_eq e "" then "Unknown error" else e)),
  )

  unfoldable pub connect_if_broken : Moment → RedisCache R × Bool → RedisCache R × Settled Done
  unfolding after_reconnect reconnect
  connect_if_broken m (c, false) =
      (c, failed "Cache circuit breaker is open - operations temporarily blocked")
  connect_if_broken m (c, true) =
      if c.is_connected then (c, fulfilled done) else after_reconnect m (reconnect m c)

  unfoldable pub ensure_connected : Moment → RedisCache R → RedisCache R × Settled Done
  unfolding connect_if_broken ask_breaker
  ensure_connected m c =
      if m.shutting_down
      then (c, failed "Cache is shutting down - operation rejected")
      else if not c.client
      then (c, failed "Redis client not connected. Call connect() first.")
      else connect_if_broken m (ask_breaker config m.checked c)

  unfoldable pub command_on :
      {A : Type 0} → (R → R × Settled A) → RedisCache R × Settled Done → RedisCache R × Settled A
  command_on command (c, failed e) = (c, failed e)
  command_on command (c, fulfilled _) =
      (record c { server = (command c.server).0 }, (command c.server).1)

  -- The body of an operation: the connection, then the commands.
  unfoldable pub run :
      {A : Type 0} → Moment → (R → R × Settled A) → RedisCache R → RedisCache R × Settled A
  unfolding command_on ensure_connected
  run m command c = command_on command (ensure_connected m c)
