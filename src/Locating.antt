-- ===== src/Locating.antt =====
-- The location service: services/location.
pub mod Env
pub mod Repo
pub mod Usecase
pub mod Handler
pub mod Deliveries
pub mod Laws
