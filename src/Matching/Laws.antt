-- ===== src/Matching/Laws.antt =====
-- What the match service guarantees.
pub mod Confirmation
pub mod Lifecycle
pub mod Acceptance
pub mod ActiveRides
pub mod Rejection
pub mod Proposals
pub mod Locks
pub mod AutoRejection
pub mod Storage
