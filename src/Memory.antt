-- ===== src/Memory.antt =====
-- The in-memory cache that stands in for Redis (src/services/cache/local-memory-cache.ts).
pub mod Store
pub mod Capacity
pub mod Reads
pub mod Stats
mod Tests
