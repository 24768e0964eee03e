-- ===== src/Delivery.antt =====
-- The delivery component: review messages and the merge policy.
pub mod Review
pub mod Merge
pub mod Tests
