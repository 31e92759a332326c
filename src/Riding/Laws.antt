-- ===== src/Riding/Laws.antt =====
-- What the rides service guarantees.
pub mod Lifecycle
pub mod Billing
pub mod Payments
pub mod Starting
pub mod Completion
pub mod Messages
