-- ===== src/Redis/Operations.antt =====
-- The operations of `SharedRedisCache` on keys, and those on the whole connection, except those that scan
-- the keys.
use Prim.Native.String.{◌++◌ as text_append}
use authentication_v.Base.{ℕ, Bool, true, false, Option, none, some, String, str_eq, if◌then◌else◌}
use authentication_v.Breaker.Cache
use authentication_v.Reconnect.Manager
use authentication_v.Kong.{ConsumerSecret}
use authentication_v.Redis.Timeout.{Settled, fulfilled, failed, Done, done, with_operation_timeout}
use authentication_v.Redis.Monitor
use authentication_v.Redis.Server.{Server, Codec}
use authentication_v.Redis.Cache.{
  CacheConfig, RedisCache, Moment, key_prefix, stale_key_prefix, ttl_of, stale_ttl, and_then,
  is_polluting, ask_breaker, note_success, note_failure, catch, record_hit, record_miss,
  connect_commands, run,
}

module _ {R : Type 0} (server : Server R) (codec : Codec) (config : CacheConfig) where
  unfoldable pub get_command : Moment → String → R → R × Settled (Option String)
  get_command m redis_key r =
      let reply = server.get redis_key r in
      (reply.0, with_operation_timeout m.command_late "GET" config.operation_timeouts.get reply.1)

  -- The end of a read that failed: it counts as a miss.
  unfoldable pub failed_read : Moment → String → RedisCache R → RedisCache R × Option ConsumerSecret
  unfolding catch
  failed_read m error c = (record_miss m.took (catch config m.ended error c), none)

  unfoldable pub parsed :
      Moment → Settled ConsumerSecret → RedisCache R → RedisCache R × Option ConsumerSecret
  unfolding failed_read
  parsed m (fulfilled v) c = (c, some v)
  parsed m (failed error) c = failed_read m error c

  unfoldable pub read_reply :
      Moment → RedisCache R × Settled (Option String) → RedisCache R × Option ConsumerSecret
  unfolding failed_read parsed note_success
  read_reply m (c, failed error) = failed_read m error c
  read_reply m (c, fulfilled none) = (note_success config m.ended (record_miss m.took c), none)
  read_reply m (c, fulfilled (some cached)) =
      if str_eq cached ""
      then (note_success config m.ended (record_miss m.took c), none)
      else parsed m (codec.decode cached) (note_success config m.ended (record_hit m.took c))

  unfoldable pub read_allowed :
      Moment → String → RedisCache R × Bool → RedisCache R × Option ConsumerSecret
  unfolding read_reply get_command run
  read_allowed m redis_key (c, false) = (c, none)
  read_allowed m redis_key (c, true) =
      read_reply m (run server config m (get_command m redis_key) c)

  unfoldable pub get : Moment → String → RedisCache R → RedisCache R × Option ConsumerSecret
  unfolding read_allowed ask_breaker
  get m key c = read_allowed m (text_append key_prefix key) (ask_breaker config m.asked c)

  unfoldable pub get_stale : Moment → String → RedisCache R → RedisCache R × Option ConsumerSecret
  unfolding read_allowed ask_breaker
  get_stale m key c =
      read_allowed m (text_append stale_key_prefix key) (ask_breaker config m.asked c)

  -- The end of an operation that returns nothing.
  unfoldable pub command_reply : Moment → RedisCache R × Settled Done → RedisCache R
  unfolding catch note_success
  command_reply m (c, failed error) = catch config m.ended error c
  command_reply m (c, fulfilled _) = note_success config m.ended c

  -- SET and EXPIRE of one key.
  unfoldable pub store_command : String → ConsumerSecret → ℕ → R → R × Settled Done
  store_command redis_key v ttl r =
      and_then (server.set redis_key (codec.encode v) r) (λ r'. server.expire redis_key ttl r')

  unfoldable pub set_command : Moment → String → ConsumerSecret → ℕ → R → R × Settled Done
  unfolding store_command
  set_command m key v ttl r =
      let reply =
        and_then (store_command (text_append key_prefix key) v ttl r)
          (store_command (text_append stale_key_prefix key) v (stale_ttl config)) in
      (reply.0, with_operation_timeout m.command_late "SET" config.operation_timeouts.set reply.1)

  unfoldable pub set_allowed :
      Moment → String → ConsumerSecret → Option ℕ → RedisCache R × Bool → RedisCache R
  unfolding command_reply set_command is_polluting run
  set_allowed m key v ttl_seconds (c, false) = c
  set_allowed m key v ttl_seconds (c, true) =
      if is_polluting key v
      then c
      else command_reply m
          (run server config m (set_command m key v (ttl_of ttl_seconds config.ttl_seconds)) c)

  unfoldable pub set : Moment → String → ConsumerSecret → Option ℕ → RedisCache R → RedisCache R
  unfolding set_allowed ask_breaker
  set m key v ttl_seconds c = set_allowed m key v ttl_seconds (ask_breaker config m.asked c)

  unfoldable pub set_stale_command : Moment → String → ConsumerSecret → R → R × Settled Done
  unfolding store_command
  set_stale_command m key v r =
      let reply = store_command (text_append stale_key_prefix key) v (stale_ttl config) r in
      (reply.0, with_operation_timeout m.command_late "SET" config.operation_timeouts.set reply.1)

  unfoldable pub set_stale_allowed :
      Moment → String → ConsumerSecret → RedisCache R × Bool → RedisCache R
  unfolding command_reply set_stale_command run
  set_stale_allowed m key v (c, false) = c
  set_stale_allowed m key v (c, true) =
      command_reply m (run server config m (set_stale_command m key v) c)

  unfoldable pub set_stale : Moment → String → ConsumerSecret → RedisCache R → RedisCache R
  unfolding set_stale_allowed ask_breaker
  set_stale m key v c = set_stale_allowed m key v (ask_breaker config m.asked c)

  unfoldable pub delete_command : Moment → String → R → R × Settled Done
  delete_command m redis_key r =
      let reply = server.del redis_key r in
      (
        reply.0,
        with_operation_timeout m.command_late "DELETE" config.operation_timeouts.delete reply.1,
      )

  unfoldable pub delete_allowed : Moment → String → RedisCache R × Bool → RedisCache R
  unfolding command_reply delete_command run
  delete_allowed m key (c, false) = c
  delete_allowed m key (c, true) =
      command_reply m (run server config m (delete_command m (text_append key_prefix key)) c)

  unfoldable pub delete : Moment → String → RedisCache R → RedisCache R
  unfolding delete_allowed ask_breaker
  delete m key c = delete_allowed m key (ask_breaker config m.asked c)

module _ {R : Type 0} (server : Server R) (config : CacheConfig) where
  -- The monitor that a connection makes, and starts.
  new_monitor : ℕ → Option Monitor.Monitor → Option Monitor.Monitor
  unfolding Monitor.new Monitor.start
  new_monitor now old =
      if config.health_monitor.enabled
      then some (Monitor.start config.health_monitor (Monitor.new now)).0
      else old

  unfoldable pub connected : Moment → RedisCache R × Settled Done → RedisCache R × Settled Done
  unfolding new_monitor note_success note_failure Manager.reset
  connected m (c, failed error) =
      (note_failure config m.ended error (record c { is_connected = false }), failed error)
  connected m (c, fulfilled _) =
      let noted = note_success config m.ended (record c { is_connected = true }) in
      (
        record noted {
          reconnect_manager = Manager.reset noted.reconnect_manager;
          health_monitor = new_monitor m.ended noted.health_monitor;
        },
        fulfilled done,
      )

  unfoldable pub connect : Moment → RedisCache R → RedisCache R × Settled Done
  unfolding connected connect_commands
  connect m c =
      let reply = connect_commands server config m c.server in
      connected m (record c { client = true; server = reply.0 }, reply.1)

  unfoldable pub ping_reply : RedisCache R × Settled String → RedisCache R × Bool
  ping_reply (c, failed error) = (c, false)
  ping_reply (c, fulfilled response) = (c, str_eq response "PONG")

  unfoldable pub is_healthy : Moment → RedisCache R → RedisCache R × Bool
  unfolding ping_reply run
  is_healthy m c = ping_reply (run server config m server.ping c)

module _ {R : Type 0} where
  unfoldable pub reset_circuit_breaker : ℕ → RedisCache R → RedisCache R
  unfolding Cache.reset
  reset_circuit_breaker now c = record c { circuit_breaker = Cache.reset now c.circuit_breaker }
