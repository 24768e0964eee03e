-- ===== src/Engineering.antt =====
-- The engineering component: task lifecycle, phases, leased jobs and their queue.
pub mod Lifecycle
pub mod Phases
pub mod Rows
pub mod Transitions
pub mod Jobs
pub mod Queue
pub mod Dependencies
pub mod Control
pub mod Steering
pub mod Tests
