-- ===== src/Riding.antt =====
-- The rides service: services/rides.
pub mod Env
pub mod Repo
pub mod Usecase
pub mod Handler
pub mod Web
pub mod History
pub mod Deliveries
pub mod Gateway
pub mod Laws
