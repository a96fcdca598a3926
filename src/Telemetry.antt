-- ===== src/Telemetry.antt =====
-- The guards that keep the labels of the metrics few, and the statistics of the exports (src/telemetry).
pub mod Guard
pub mod Labels
pub mod Volume
pub mod Export
pub mod Recent
mod Tests
