-- ===== src/Kong.antt =====
-- The access to Kong: the circuit breaker service with its stale cache
-- (src/services/circuit-breaker.service.ts) and the adapter in front of it
-- (src/adapters/kong.adapter.ts).
mod Types
pub mod Service
pub mod Fallback
pub mod Operations
pub mod Upkeep
pub mod Isolation
pub mod Stale
pub mod Bounds
pub mod Course
pub mod Adapter
pub mod Calls
pub mod Lookup
pub mod Creation
pub mod Local
mod Tests
pub use Types.*
