-- ===== src/Health.antt =====
-- The status that /health answers (src/handlers/health.ts, src/handlers/health-status.ts and
-- src/services/cache-health.service.ts).
pub mod Cache
pub mod Status
pub mod Recent
mod Tests
