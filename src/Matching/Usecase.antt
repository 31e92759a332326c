-- ===== src/Matching/Usecase.antt =====
-- The match use cases, services/match/usecase/match.go.
pub mod Pool
pub mod Propose
pub mod Confirm
pub mod Reject
