-- ===== src/Redis/Connection.antt =====
-- `disconnect` of src/services/cache/shared-redis-cache.ts, which waits for the operations that the
-- tracker of src/services/cache/redis-operation-tracker.ts knows of.
use authentication_v.Base.{
  ℕ, ◌+◌, ◌≤◌, ◌≡◌, ◌⊎◌, inl, inr, refl, Bool, true, false, ◌&&◌, Option, none, some, List, [], ◌∷◌,
  arith, ltb, ◌==◌, if◌then◌else◌, Bool-cases,
}
use authentication_v.Reconnect.Manager
use authentication_v.Redis.Cache.{RedisCache}
use authentication_v.Redis.Tracker.{
  Tracker, Event, size, poll, wait_for_completion, get_pending_count, stop_accepting_operations,
  handle_all,
}

-- The time that `disconnect` waits.
abbrev pub drain_timeout_ms : ℕ
drain_timeout_ms = 3000

module _ {R : Type 0} where
  -- The connection is closed, whatever `close` answers.
  unfoldable pub closed : RedisCache R → RedisCache R
  unfolding Manager.reset
  closed c = record c {
    client = false;
    is_connected = false;
    reconnect_manager = Manager.reset c.reconnect_manager;
  }

  abbrev pub drained : RedisCache R → Option (Tracker × Bool) → Option (RedisCache R × Tracker)
  unfolding closed
  drained c none = none
  drained c (some (t, all)) = some (closed c, t)

  unfoldable pub disconnect :
      ℕ → List (List Event × ℕ) → RedisCache R × Tracker → Option (RedisCache R × Tracker)
  unfolding closed wait_for_completion get_pending_count stop_accepting_operations
  disconnect now rounds (c, t) =
      let stopped = record c { health_monitor = none } in
      if c.client
      then if ltb 0 (get_pending_count t)
        then drained stopped
            (wait_for_completion drain_timeout_ms now rounds (stop_accepting_operations t))
        else some (closed stopped, t)
      else some (stopped, t)

-- Some round wakes at the deadline or after it.
abbrev pub Reaches : ℕ → List (List Event × ℕ) → Type 0
Reaches deadline [] = ⊥
Reaches deadline ((es, wake) ∷ rounds) = (deadline ≤ wake) ⊎ Reaches deadline rounds

poll_late :
    (deadline now : ℕ) (rounds : List (List Event × ℕ)) (t : Tracker)
    → deadline ≤ now
    → poll deadline now rounds t ≡ some t
unfolding poll
poll_late deadline now [] t h = ground (arith, h)
poll_late deadline now ((es, wake) ∷ rounds) t h = ground (arith, h)

poll-total :
    (deadline now : ℕ) (rounds : List (List Event × ℕ)) (t : Tracker)
    → Reaches deadline rounds
    → (t' : Tracker) × (poll deadline now rounds t ≡ some t')
unfolding poll
poll-total deadline now [] t h = elim h [ ]
poll-total deadline now ((es, wake) ∷ rounds) t h =
    let rest : (t' : Tracker) × (poll deadline wake rounds (handle_all es t) ≡ some t') = elim h [
      | inl late ↦ (handle_all es t, poll_late deadline wake rounds (handle_all es t) late)
      | inr later ↦ poll-total deadline wake rounds (handle_all es t) later
    ] in
    elim (Bool-cases (ltb 0 (size t.pending_operations) && ltb now deadline)) [
      | inl waits ↦ rw waits rest
      | inr stops ↦ rw stops (t, refl)
    ]

wait_for_completion-total :
    (timeout_ms now : ℕ) (rounds : List (List Event × ℕ)) (t : Tracker)
    → Reaches (now + timeout_ms) rounds
    → (r : Tracker × Bool) × (wait_for_completion timeout_ms now rounds t ≡ some r)
unfolding wait_for_completion
wait_for_completion-total timeout_ms now rounds t h =
    let end = poll-total (now + timeout_ms) now rounds t h in
    elim (Bool-cases (size t.pending_operations == 0)) [
      | inl none_pending ↦ rw none_pending ((t, true), refl)
      | inr pending ↦ rw (pending, end.1) ((end.0, size end.0.pending_operations == 0), refl)
    ]

-- What a disconnection leaves of a cache that has a client.
pub record HasLeft {R : Type 0} (before after : RedisCache R) : Type 0 where
  pub client : after.client ≡ false
  pub is_connected : after.is_connected ≡ false
  pub health_monitor : after.health_monitor ≡ none
  pub attempts : after.reconnect_manager.reconnect_attempts ≡ 0
  pub server : after.server ≡ before.server
  pub circuit_breaker : after.circuit_breaker ≡ before.circuit_breaker

closed-HasLeft :
    {R : Type 0} (c : RedisCache R) → HasLeft c (closed (record c { health_monitor = none }))
unfolding closed
closed-HasLeft c = record {
  client = refl;
  is_connected = refl;
  health_monitor = refl;
  attempts = refl;
  server = refl;
  circuit_breaker = refl;
}

-- A disconnection of a cache that has a client ends, whatever is pending, once the rounds of its waiting
-- reach three seconds; it leaves no client, no connection, no monitor and no counted attempt, and it
-- changes neither the breaker nor the server.
pub disconnect-HasLeft :
    {R : Type 0} (now : ℕ) (rounds : List (List Event × ℕ)) (c : RedisCache R) (t : Tracker)
    → c.client ≡ true
    → Reaches (now + 3000) rounds
    → (r : RedisCache R × Tracker) × (disconnect now rounds (c, t) ≡ some r) × HasLeft c r.0
unfolding disconnect
disconnect-HasLeft now rounds c t h reach =
    let left = closed (record c { health_monitor = none }) in
    let waited =
      wait_for_completion-total drain_timeout_ms now rounds (stop_accepting_operations t) reach in
    elim (Bool-cases (ltb 0 (get_pending_count t))) [
      | inl pending ↦ ((left, waited.0.0), ground (arith, h, pending, waited.1), closed-HasLeft c)
      | inr quiet ↦ ((left, t), ground (arith, h, quiet), closed-HasLeft c)
    ]
