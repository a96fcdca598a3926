-- ===== src/Redis/Contents.antt =====
-- What the operations of the shared cache (src/services/cache/shared-redis-cache.ts) do to the texts that
-- the server stores.
use authentication_v.Base.{
  ℕ, ◌≡◌, ◌⊎◌, inl, inr, Bool, true, false, String, arith, if_both, ltb, not,
}
use authentication_v.Reconnect.Manager.{Manager, Answer, joins, refused, starts, execute_reconnect}
use authentication_v.Redis.Timeout.{Settled, fulfilled, failed, Done}
use authentication_v.Redis.Server.{Server}
use authentication_v.Redis.Cache.{
  CacheConfig, RedisCache, Moment, and_then, ask_breaker, note_success, note_failure, catch,
  mark_connection_broken, select_db, connect_command, ping_command, connect_commands, attempt,
  reconnect, after_reconnect, connect_if_broken, ensure_connected, command_on, run,
}

module _ {R : Type 0} (config : CacheConfig) where
  pub catch-server :
      (now : ℕ) (error : String) (c : RedisCache R) → (catch config now error c).server ≡ c.server
  unfolding catch mark_connection_broken note_failure
  catch-server now error c = ground arith

module _ {R : Type 0} (server : Server R) (config : CacheConfig) where
  abbrev pub Before : String → String → R → R → Type 0
  Before key t after r = server.Stored key t after → server.Stored key t r

  pub and_then-Before :
      {A B : Type 0} (p : R × Settled A) (next : R → R × Settled B) (key t : String)
      → ((r : R) → Before key t (next r).0 r)
      → Before key t (and_then p next).0 p.0
  and_then-Before (r, failed e) next key t h s = s
  and_then-Before (r, fulfilled a) next key t h s = h r s

  select_db-Before : (r : R) (key t : String) → Before key t (select_db server config r).0 r
  unfolding select_db
  select_db-Before r key t =
      if_both (λ (p : R × Settled Done). Before key t p.0 r) (ltb 0 config.db)
        (server.stored_before_select config.db key t r) (λ s. s)

  pub connect_commands-Before :
      (m : Moment) (r : R) (key t : String) → Before key t (connect_commands server config m r).0 r
  unfolding connect_commands connect_command ping_command
  connect_commands-Before m r key t s = server.stored_before_connect key t r (
      and_then-Before (connect_command server config m r) (select_db server config) key t
        (λ r'. select_db-Before r' key t)
        (and_then-Before (and_then (connect_command server config m r) (select_db server config))
          (ping_command server config m) key t (λ r'. server.stored_before_ping key t r') s))

  attempt-Before :
      (m : Moment) (manager : Manager) (answer : Answer) (c : RedisCache R) (key t : String)
      → Before key t (attempt server config m manager answer c).0.server c.server
  unfolding attempt
  attempt-Before m manager joins c key t s = s
  attempt-Before m manager (refused n) c key t s = s
  attempt-Before m manager (starts delay) c key t s = connect_commands-Before m c.server key t s

  after_reconnect-Before :
      (m : Moment) (p : RedisCache R × Settled Done) (key t : String)
      → Before key t (after_reconnect server config m p).0.server p.0.server
  unfolding after_reconnect note_success note_failure
  after_reconnect-Before m (c, fulfilled _) key t s = s
  after_reconnect-Before m (c, failed e) key t s = s

  reconnect-Before :
      (m : Moment) (c : RedisCache R) (key t : String)
      → Before key t
          (after_reconnect server config m (reconnect server config m c)).0.server
          c.server
  unfolding reconnect
  reconnect-Before m c key t s =
      let answer = execute_reconnect m.checked m.attempted c.reconnect_manager in
      attempt-Before m answer.0 answer.1 c key t
        (after_reconnect-Before m (reconnect server config m c) key t s)

  connect_if_broken-Before :
      (m : Moment) (p : RedisCache R × Bool) (key t : String)
      → Before key t (connect_if_broken server config m p).0.server p.0.server
  unfolding connect_if_broken
  connect_if_broken-Before m (c, false) key t s = s
  connect_if_broken-Before m (c, true) key t s =
      if_both (λ (p : RedisCache R × Settled Done). Before key t p.0.server c.server) c.is_connected
        (λ s'. s') (reconnect-Before m c key t) s

  pub ensure_connected-Before :
      (m : Moment) (c : RedisCache R) (key t : String)
      → Before key t (ensure_connected server config m c).0.server c.server
  unfolding ensure_connected ask_breaker
  ensure_connected-Before m c key t =
      let P : RedisCache R × Settled Done → Type 0 = λ p. Before key t p.0.server c.server in
      if_both P m.shutting_down (λ s. s)
        (if_both P (not c.client) (λ s. s)
          (connect_if_broken-Before m (ask_breaker config m.checked c) key t))

  command_on-before :
      {A Q : Type 0} (command : R → R × Settled A) (p : RedisCache R × Settled Done)
      (key t : String)
      → ((r : R) → server.Stored key t (command r).0 → Q ⊎ server.Stored key t r)
      → server.Stored key t (command_on server config command p).0.server
      → Q ⊎ server.Stored key t p.0.server
  unfolding command_on
  command_on-before command (c, failed e) key t h s = inr s
  command_on-before command (c, fulfilled _) key t h s = h c.server s

  -- After the body of an operation, the server stores what it stored, and what the commands may store.
  pub run-before :
      {A Q : Type 0} (m : Moment) (command : R → R × Settled A) (c : RedisCache R) (key t : String)
      → ((r : R) → server.Stored key t (command r).0 → Q ⊎ server.Stored key t r)
      → server.Stored key t (run server config m command c).0.server
      → Q ⊎ server.Stored key t c.server
  unfolding run
  run-before {A} {Q} m command c key t h s =
      elim (command_on-before {A = A} {Q = Q} command (ensure_connected server config m c) key t h
        s) [ inl q ↦ inl q | inr before ↦ inr (ensure_connected-Before m c key t before) ]

  pub run-Before_only :
      {A : Type 0} (m : Moment) (command : R → R × Settled A) (c : RedisCache R) (key t : String)
      → ((r : R) → Before key t (command r).0 r)
      → Before key t (run server config m command c).0.server c.server
  run-Before_only m command c key t h s =
      elim (run-before {Q = server.Stored key t c.server} m command c key t (λ r q. inr (h r q))
        s) [ inl before ↦ before | inr before ↦ before ]

  command_on-reply :
      {A : Type 0} (command : R → R × Settled A) (p : RedisCache R × Settled Done) (a : A)
      → (command_on server config command p).1 ≡ fulfilled a
      → (command p.0.server).1 ≡ fulfilled a
  unfolding command_on
  command_on-reply command (c, failed e) a h = absurd (cc h)
  command_on-reply command (c, fulfilled _) a h = h

  -- A reply of the body is one of its commands.
  pub run-reply :
      {A : Type 0} (m : Moment) (command : R → R × Settled A) (c : RedisCache R) (a : A)
      → (run server config m command c).1 ≡ fulfilled a
      → (command (ensure_connected server config m c).0.server).1 ≡ fulfilled a
  unfolding run
  run-reply m command c a h = command_on-reply command (ensure_connected server config m c) a h
