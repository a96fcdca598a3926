-- ===== src/Profiling.antt =====
-- The profiling service (src/services/profiling.service.ts).
pub mod Service
pub mod Sessions
mod Tests
