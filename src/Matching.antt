-- ===== src/Matching.antt =====
-- The match service: services/match.
pub mod Env
pub mod History
pub mod Repo
pub mod Usecase
pub mod Handler
pub mod Web
pub mod Deliveries
pub mod Laws
