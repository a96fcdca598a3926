-- ===== src/Redis.antt =====
-- The shared cache in Redis (src/services/cache/shared-redis-cache.ts), with the parts that it is made
-- of: the classification of errors, the tracker of operations, the health monitor.
pub mod Detector
pub mod Timeout
pub mod Messages
pub mod Matching
pub mod Broken
pub mod Monitor
pub mod Health
pub mod Tracker
pub mod Pending
pub mod Scan
pub mod Walk
pub mod Server
pub mod Cache
pub mod Operations
pub mod Contents
pub mod Keys
pub mod Shared
pub mod History
pub mod Failures
pub mod Outage
pub mod Connection
pub mod Clearing
mod Reference
mod Tests
