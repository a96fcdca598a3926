-- ===== src/Redis/Outage.antt =====
-- What the breaker of the shared cache (src/services/cache/shared-redis-cache.ts) counts of a read while
-- the server cannot be reached.
use Prim.Native.String.{◌++◌ as text_append}
use authentication_v.Base.{
  ℕ, ◌+◌, ◌≡◌, refl, ap, subst, ◌∙◌, Bool, true, false, String, arith, str_eq, if◌then◌else◌,
}
use authentication_v.Breaker.{closed}
use authentication_v.Breaker.Cache.{CacheBreaker, CacheBreakerConfig, can_execute, record_failure}
use authentication_v.Reconnect.Manager.{Manager, Answer, execute_reconnect}
use authentication_v.Redis.Detector.{is_connection_error}
use authentication_v.Redis.Messages.{own_messages_reconnect}
use authentication_v.Redis.Timeout.{Settled, fulfilled, failed, Done, reconnection_failed_message}
use authentication_v.Redis.Server.{Server, Codec}
use authentication_v.Redis.Cache.{
  CacheConfig, RedisCache, Moment, key_prefix, ask_breaker, note_failure, catch,
  mark_connection_broken, connect_commands, attempt, reconnect, after_reconnect, connect_if_broken,
  ensure_connected, command_on, run,
}
use authentication_v.Redis.Operations.{get, get_command, read_allowed, read_reply, failed_read}

-- A breaker that is closed and enabled.
pub record IsClosed (config : CacheBreakerConfig) (b : CacheBreaker) : Type 0 where
  pub enabled : config.enabled ≡ true
  pub state : b.state ≡ closed

module _ (config : CacheBreakerConfig) where
  can_execute-closed :
      (now : ℕ) (b : CacheBreaker)
      → IsClosed config b
      → can_execute config now b ≡ (record b { total_requests = b.total_requests + 1 }, true)
  unfolding can_execute
  can_execute-closed now b h = ground (arith, h.enabled, h.state)

  record_failure-count :
      (now : ℕ) (b : CacheBreaker)
      → config.enabled ≡ true
      → ((record_failure config now true b).failure_count ≡ b.failure_count + 1)
        × ((record_failure config now true b).total_requests ≡ b.total_requests)
  unfolding record_failure
  record_failure-count now b h = ground (arith, h)

module _ {R : Type 0} (server : Server R) (codec : Codec) (config : CacheConfig) where
  ask_breaker-closed :
      (now : ℕ) (c : RedisCache R)
      → IsClosed config.circuit_breaker c.circuit_breaker
      → ask_breaker config now c ≡ (
        record c {
          circuit_breaker = record c.circuit_breaker {
            total_requests = c.circuit_breaker.total_requests + 1;
          };
        },
        true,
      )
  unfolding ask_breaker
  ask_breaker-closed now c h =
      rw (can_execute-closed config.circuit_breaker now c.circuit_breaker h) refl

  -- A client that has lost its connection, whose next attempt to reconnect fails with the message.
  pub record IsCutOff (m : Moment) (error : String) (c : RedisCache R) : Type 0 where
    pub running : m.shutting_down ≡ false
    pub client : c.client ≡ true
    pub is_connected : c.is_connected ≡ false
    pub manager : Manager
    pub delay : ℕ
    pub starts :
        execute_reconnect m.checked m.attempted c.reconnect_manager ≡ (manager, Answer.starts delay)
    pub fails : (connect_commands server config m c.server).1 ≡ failed error

  IsCutOff-ask_breaker :
      (m : Moment) (error : String) (now : ℕ) (c : RedisCache R)
      → IsCutOff m error c
      → IsCutOff m error (ask_breaker config now c).0
  unfolding ask_breaker
  IsCutOff-ask_breaker m error now c h = record {
    running = h.running;
    client = h.client;
    is_connected = h.is_connected;
    manager = h.manager;
    delay = h.delay;
    starts = h.starts;
    fails = h.fails;
  }

  reconnect-fails :
      (m : Moment) (error : String) (c : RedisCache R)
      → IsCutOff m error c
      → ((reconnect server config m c).1 ≡ failed error)
        × ((reconnect server config m c).0.circuit_breaker ≡ c.circuit_breaker)
  unfolding reconnect attempt
  reconnect-fails m error c h = rw h.starts (h.fails, refl)

  -- Counts of a breaker, relative to an earlier one.
  abbrev pub Counts : ℕ → ℕ → CacheBreaker → CacheBreaker → Type 0
  Counts failures requests after before =
      (after.failure_count ≡ before.failure_count + failures)
      × (after.total_requests ≡ before.total_requests + requests)

  note_failure-Counts :
      (now : ℕ) (error : String) (c : RedisCache R)
      → config.circuit_breaker.enabled ≡ true
      → is_connection_error error ≡ true
      → Counts 1 0 (note_failure config now error c).circuit_breaker c.circuit_breaker
  unfolding note_failure
  note_failure-Counts now error c h e = rw e (
      let counted = record_failure-count config.circuit_breaker now c.circuit_breaker h in
      (counted.0, omega (arith, counted.1)))

  after_reconnect-fails :
      (m : Moment) (error : String) (p : RedisCache R × Settled Done)
      → p.1 ≡ failed error
      → config.circuit_breaker.enabled ≡ true
      → is_connection_error error ≡ true
      → Counts 1 0 (after_reconnect server config m p).0.circuit_breaker p.0.circuit_breaker
        × ((cause : String) × ((after_reconnect server config m p).1
              ≡ failed (reconnection_failed_message cause)))
  unfolding after_reconnect
  after_reconnect-fails m error (c, fulfilled _) h k e = absurd (cc h)
  after_reconnect-fails m error (c, failed error') h k e =
      let same : error' ≡ error = cc h in
      (
        note_failure-Counts m.settled error' c k (rw same e),
        ((if str_eq error' "" then "Unknown error" else error'), refl),
      )

  ensure_connected-asks :
      (m : Moment) (c : RedisCache R)
      → m.shutting_down ≡ false
      → c.client ≡ true
      → ensure_connected server config m c
        ≡ connect_if_broken server config m (ask_breaker config m.checked c)
  unfolding ensure_connected
  ensure_connected-asks m c h k = ground (arith, h, k)

  connect_if_broken-lost :
      (m : Moment) (c : RedisCache R)
      → c.is_connected ≡ false
      → connect_if_broken server config m (c, true)
        ≡ after_reconnect server config m (reconnect server config m c)
  unfolding connect_if_broken
  connect_if_broken-lost m c h = ground (arith, h)

  ensure_connected-fails :
      (m : Moment) (error : String) (c : RedisCache R)
      → IsCutOff m error c
      → IsClosed config.circuit_breaker c.circuit_breaker
      → is_connection_error error ≡ true
      → Counts 1 1 (ensure_connected server config m c).0.circuit_breaker c.circuit_breaker
        × ((cause : String) × ((ensure_connected server config m c).1
              ≡ failed (reconnection_failed_message cause)))
  ensure_connected-fails m error c h k e =
      let c' = record c {
        circuit_breaker = record c.circuit_breaker {
          total_requests = c.circuit_breaker.total_requests + 1;
        };
      } in
      let lost = reconnect-fails m error c' (
        subst (IsCutOff m error)
          (ap (λ (p : RedisCache R × Bool). p.0) (ask_breaker-closed m.checked c k))
          (IsCutOff-ask_breaker m error m.checked c h)) in
      let counted =
        after_reconnect-fails m error (reconnect server config m c') lost.0 k.enabled e in
      let same =
        ensure_connected-asks m c h.running h.client
        ∙ ap (connect_if_broken server config m) (ask_breaker-closed m.checked c k)
        ∙ connect_if_broken-lost m c' h.is_connected in
      rw same (
        (
          cc (counted.0.0, lost.1),
          omega (arith, counted.0.1, ap (λ (b : CacheBreaker). b.total_requests) lost.1),
        ),
        counted.1,
      )

  catch-connection :
      (now : ℕ) (error : String) (c : RedisCache R)
      → is_connection_error error ≡ true
      → catch config now error c ≡ note_failure config now error (record c { is_connected = false })
  unfolding catch mark_connection_broken
  catch-connection now error c h = ground (arith, h)

  failed_read-Counts :
      (m : Moment) (cause : String) (c : RedisCache R)
      → config.circuit_breaker.enabled ≡ true
      → Counts 1 0
          (failed_read server codec config m
            (reconnection_failed_message cause)
            c).0.circuit_breaker
          c.circuit_breaker
  unfolding failed_read
  failed_read-Counts m cause c h =
      let connection = (own_messages_reconnect "" "" cause).2 in
      rw (catch-connection m.ended (reconnection_failed_message cause) c connection) (
        note_failure-Counts m.ended (reconnection_failed_message cause)
          (record c { is_connected = false }) h connection)

  lost_read-Counts :
      (m : Moment) (name cause : String) (p : RedisCache R × Settled Done)
      → config.circuit_breaker.enabled ≡ true
      → p.1 ≡ failed (reconnection_failed_message cause)
      → Counts 1 0
          (read_reply server codec config m
            (command_on server config (get_command server codec config m name) p)).0.circuit_breaker
          p.0.circuit_breaker
  unfolding read_reply command_on
  lost_read-Counts m name cause (c, fulfilled _) h e = absurd (cc e)
  lost_read-Counts m name cause (c, failed error) h e =
      let same : error ≡ reconnection_failed_message cause = cc e in
      rw same (failed_read-Counts m cause c h)

  -- Where the breaker is closed and enabled, and the connection is lost and the next attempt to restore
  -- it fails with an error of the connection, one read counts two failures and two requests in the breaker.
  pub get-Counts_twice :
      (m : Moment) (error key : String) (c : RedisCache R)
      → IsCutOff m error c
      → IsClosed config.circuit_breaker c.circuit_breaker
      → is_connection_error error ≡ true
      → Counts 2 2 (get server codec config m key c).0.circuit_breaker c.circuit_breaker
  unfolding get read_allowed run
  get-Counts_twice m error key c h k e =
      let c' = record c {
        circuit_breaker = record c.circuit_breaker {
          total_requests = c.circuit_breaker.total_requests + 1;
        };
      } in
      let asked = ask_breaker-closed m.asked c k in
      let cut_off =
        subst (IsCutOff m error) (ap (λ (p : RedisCache R × Bool). p.0) asked)
          (IsCutOff-ask_breaker m error m.asked c h) in
      let lost =
        ensure_connected-fails m error c' cut_off (record { enabled = k.enabled; state = k.state })
          e in
      let read =
        lost_read-Counts m (text_append key_prefix key) lost.1.0
          (ensure_connected server config m c') k.enabled lost.1.1 in
      rw asked (omega (arith, lost.0.0, read.0), omega (arith, lost.0.1, read.1))
