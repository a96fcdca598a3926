-- ===== src/Breaker/State.antt =====
-- The states of a circuit breaker (src/types/circuit-breaker.types.ts).

-- `CircuitBreakerStateEnum`; `opened` is OPEN, since `open` is a word of the language.
pub data BreakerState : Type 0 where
  closed opened half_open : BreakerState
