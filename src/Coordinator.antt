-- ===== src/Coordinator.antt =====
-- coordinator: the decisions of the model that talks to people, what they may do, and the
-- delivery of their messages.
pub mod Protocol
pub mod Rows
pub mod Outbox
pub mod Runs
pub mod Guards
pub mod Actions
pub mod Inbox
pub mod Tests
