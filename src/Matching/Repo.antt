-- ===== src/Matching/Repo.antt =====
-- The match repository, services/match/repository/match.go.
pub mod Status
pub mod Create
pub mod Confirm
pub mod ActiveRide
