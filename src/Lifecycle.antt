-- ===== src/Lifecycle.antt =====
-- The service's life cycle (src/lifecycle): the state machine, the tracker of requests in flight and
-- the coordinator of the components' shutdown.
pub mod Machine
pub mod Course
pub mod Middleware
pub mod Admission
pub mod Inflight
pub mod Accounting
pub mod Drain
pub mod Coordinator
pub mod Order
pub mod Shutdown
mod Tests
