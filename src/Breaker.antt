-- ===== src/Breaker.antt =====
-- The circuit breakers that the service implements itself: the one of the telemetry exporters
-- (src/telemetry/telemetry-circuit-breaker.ts) and the one of the Redis cache
-- (src/services/cache/cache-circuit-breaker.ts), with the types that they share
-- (src/types/circuit-breaker.types.ts).
mod State
pub mod Telemetry
pub mod Cache
pub mod Threshold
pub mod CacheThreshold
pub mod Agreement
mod Tests
pub use State.*
