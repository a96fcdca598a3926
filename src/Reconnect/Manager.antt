-- ===== src/Reconnect/Manager.antt =====
-- The state and the operations of `CacheReconnectManager`. A call of `executeReconnect` runs up to the
-- first `await` of `doReconnect`; what happens when the promise is settled, with the `finally` block,
-- is `settle`. `now` and `start_time` are the readings of the clock in the two functions.
use authentication_v.Base.{
  ℕ, ◌+◌, ◌-◌, ◌*◌, ◌^◌, min, Bool, true, false, ◌&&◌, ltb, leb, ◌==◌, if◌then◌else◌,
}

-- `ReconnectManagerConfig`
pub record ReconnectConfig : Type 0 where
  pub max_attempts : ℕ
  pub base_delay_ms : ℕ
  pub max_delay_ms : ℕ
  pub cooldown_ms : ℕ

abbrev pub default_reconnect_config : ReconnectConfig
default_reconnect_config = record {
  max_attempts = 5;
  base_delay_ms = 100;
  max_delay_ms = 5000;
  cooldown_ms = 60000;
}

-- The fields of the class; `has_promise` tells whether `reconnectPromise` is set. `running` is not a
-- field: it counts the calls of `doReconnect` that have not ended.
pub record Manager : Type 0 where
  pub config : ReconnectConfig
  pub reconnect_attempts : ℕ
  pub last_attempt_time : ℕ
  pub has_promise : Bool
  pub total_successes : ℕ
  pub total_failures : ℕ
  pub running : ℕ

abbrev pub new : ReconnectConfig → Manager
new config = record {
  config = config;
  reconnect_attempts = 0;
  last_attempt_time = 0;
  has_promise = false;
  total_successes = 0;
  total_failures = 0;
  running = 0;
}

-- How a call of `executeReconnect` goes on: it waits for the running attempt, it is refused with the
-- number of attempts made, or it starts an attempt, after a delay.
pub data Answer : Type 0 where
  joins : Answer
  refused : ℕ → Answer
  starts : ℕ → Answer

-- `ReconnectResult`, without the error.
pub record ReconnectResult : Type 0 where
  pub success : Bool
  pub attempts : ℕ
  pub duration_ms : ℕ

abbrev pub backoff : ReconnectConfig → ℕ → ℕ
backoff c exponent = min (c.base_delay_ms * 2 ^ exponent) c.max_delay_ms

-- `doReconnect` up to its first `await`, with the delay that it waits.
unfoldable pub do_reconnect : ℕ → Manager → Manager × ℕ
do_reconnect start_time m =
    let attempts = m.reconnect_attempts + 1 in
    (
      record m {
        reconnect_attempts = attempts;
        last_attempt_time = start_time;
        has_promise = true;
        running = m.running + 1;
      },
      if ltb 1 attempts then backoff m.config (attempts - 1) else 0,
    )

-- The reset of the counter once the cooldown has passed.
unfoldable pub cool_down : ℕ → Manager → Manager
cool_down now m =
    if ltb 0 m.last_attempt_time && ltb (m.last_attempt_time + m.config.cooldown_ms) now
    then record m { reconnect_attempts = 0 }
    else m

started : Manager × ℕ → Manager × Answer
started (m, delay) = (m, starts delay)

unfoldable pub execute_reconnect : ℕ → ℕ → Manager → Manager × Answer
unfolding cool_down do_reconnect started
execute_reconnect now start_time m =
    if m.has_promise
    then (m, joins)
    else (let m' = cool_down now m in
        if leb m'.config.max_attempts m'.reconnect_attempts
        then (m', refused m'.reconnect_attempts)
        else started (do_reconnect start_time m'))

-- The end of an attempt that began at `start_time`, by whether `reconnectFn` succeeded.
unfoldable pub settle : ℕ → ℕ → Bool → Manager → Manager × ReconnectResult
settle now start_time true m = (
  record m {
    reconnect_attempts = 0;
    total_successes = m.total_successes + 1;
    has_promise = false;
    running = m.running - 1;
  },
  record { success = true; attempts = 1; duration_ms = now - start_time },
)
settle now start_time false m = (
  record m { total_failures = m.total_failures + 1; has_promise = false; running = m.running - 1 },
  record { success = false; attempts = m.reconnect_attempts; duration_ms = now - start_time },
)

unfoldable pub reset : Manager → Manager
reset m = record m { reconnect_attempts = 0; last_attempt_time = 0; has_promise = false }

unfoldable pub force_reset_attempts : Manager → Manager
force_reset_attempts m = record m { reconnect_attempts = 0 }

unfoldable pub get_next_delay_ms : Manager → ℕ
get_next_delay_ms m =
    let next_attempt = m.reconnect_attempts + 1 in backoff m.config (next_attempt - 1)

unfoldable pub is_exhausted : Manager → Bool
is_exhausted m = leb m.config.max_attempts m.reconnect_attempts

unfoldable pub get_cooldown_remaining_ms : ℕ → Manager → ℕ
get_cooldown_remaining_ms now m =
    if m.last_attempt_time == 0 then 0 else (m.last_attempt_time + m.config.cooldown_ms) - now
