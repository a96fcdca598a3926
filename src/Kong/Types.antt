-- ===== src/Kong/Types.antt =====
-- The data of the circuit breaker service (src/config/schemas.ts and the head of
-- src/services/circuit-breaker.service.ts).
use authentication_v.Base.{ℕ, Bool, Option, String}

-- `ConsumerSecret`. The object `consumer` may be missing, and in it the `id`, since the code tests for both
-- and what Kong and Redis answer is read with lenient schemas.
pub record ConsumerSecret : Type 0 where
  pub id : String
  pub key : String
  pub secret : String
  pub consumer : Option (Option String)

-- The values of `fallbackStrategy`.
pub data Strategy : Type 0 where
  cache graceful_degradation deny : Strategy

-- `OperationCircuitBreakerConfig`
pub record OperationConfig : Type 0 where
  pub timeout : Option ℕ
  pub error_threshold_percentage : Option ℕ
  pub reset_timeout : Option ℕ
  pub rolling_count_timeout : Option ℕ
  pub rolling_count_buckets : Option ℕ
  pub volume_threshold : Option ℕ
  pub fallback_strategy : Option Strategy

-- The options that a breaker of the library opossum is made with.
pub record BreakerOptions : Type 0 where
  pub timeout : ℕ
  pub error_threshold_percentage : ℕ
  pub reset_timeout : ℕ
  pub rolling_count_timeout : ℕ
  pub rolling_count_buckets : ℕ
  pub volume_threshold : ℕ

-- An entry of `staleCache`; `secret` is its field `data`.
pub record StaleEntry : Type 0 where
  pub secret : ConsumerSecret
  pub timestamp : ℕ

-- How a promise ends.
pub data Outcome (A : Type 0) : Type 0 where
  returned : A → Outcome A
  threw : Outcome A

-- How `breaker.fire(action)` of opossum ends; a rejection comes with the value of `breaker.opened`
-- that the handler reads.
pub data Fire (A : Type 0) : Type 0 where
  resolved : A → Fire A
  rejected : Bool → Fire A

-- How the call of `cacheService.getStale` ends; `absent` also where the service has no such method.
pub data RedisAnswer : Type 0 where
  absent : RedisAnswer
  failed : RedisAnswer
  hit : ConsumerSecret → RedisAnswer

-- `GracefulDegradationResponse`; the second constructor carries `operation`.
pub data Degradation : Type 0 where
  unhealthy : Degradation
  unavailable : String → Degradation

-- What `wrapKongOperation` returns: a value of the operation, `null`, or a degraded response.
pub data Reply (A : Type 0) : Type 0 where
  value : A → Reply A
  null : Reply A
  degraded : Degradation → Reply A
