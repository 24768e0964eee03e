-- ===== src/AgentRuntime.antt =====
-- The agent runtime: token policy, progress governor, usage and spending.
pub mod Progress
pub mod Policy
pub mod Governor
pub mod Usage
pub mod Reservations
pub mod Tests
