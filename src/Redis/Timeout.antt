-- ===== src/Redis/Timeout.antt =====
-- The time limits of the commands (src/services/cache/cache-operation-timeout.ts), and the messages of
-- the errors that the shared cache makes itself.
use Prim.Native.String.{◌++◌ as text_append}
use authentication_v.Base.Decimal.{decimal}
use authentication_v.Base.{ℕ, Bool, String, if◌then◌else◌}

-- How a promise ends: with a value, or with an error that has a message.
pub data Settled (A : Type 0) : Type 0 where
  fulfilled : A → Settled A
  failed : String → Settled A

pub data Done : Type 0 where
  done : Done

-- `CacheOperationTimeouts`
pub record Timeouts : Type 0 where
  pub get : ℕ
  pub set : ℕ
  pub delete : ℕ
  pub scan : ℕ
  pub ping : ℕ
  pub connect : ℕ

-- `DEFAULT_OPERATION_TIMEOUTS`
abbrev pub default_operation_timeouts : Timeouts
default_operation_timeouts = record {
  get = 1000;
  set = 2000;
  delete = 1000;
  scan = 5000;
  ping = 500;
  connect = 5000;
}

-- The message of `CacheOperationTimeoutError`.
abbrev pub timeout_message : String → String → String
timeout_message operation ms =
    text_append (text_append "Cache " operation)
      (text_append " operation timed out after " (text_append ms "ms"))

-- `withOperationTimeout`, where `is_late` tells whether the timer fires before the promise is settled.
-- The command goes on after the timer has fired.
unfoldable pub with_operation_timeout : {A : Type 0} → Bool → String → ℕ → Settled A → Settled A
unfolding decimal
with_operation_timeout is_late operation ms reply =
    if is_late then failed (timeout_message operation (decimal ms)) else reply

-- The message with which `ensureConnected` reports a failed reconnection.
abbrev pub reconnection_failed_message : String → String
reconnection_failed_message error =
    text_append "Redis connection lost and reconnection failed: " error

-- The message of the refusal of `executeReconnect`.
unfoldable pub exhausted_message : ℕ → ℕ → String
unfolding decimal
exhausted_message max_attempts left =
    text_append (text_append "Max reconnection attempts (" (decimal max_attempts))
      (text_append ") exceeded. Cooldown resets in " (text_append (decimal left) "ms"))
