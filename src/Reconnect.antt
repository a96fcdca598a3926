-- ===== src/Reconnect.antt =====
-- The reconnection of the Redis client (src/utils/cache-reconnect-manager.ts).
pub mod Manager
pub mod Limits
mod Tests
