-- ===== src/Users.antt =====
-- The users service: services/users, and the tokens of internal/pkg/jwt.
pub mod Env
pub mod Token
pub mod Repo
pub mod Usecase
pub mod Socket
pub mod Web
pub mod Gate
pub mod Handler
pub mod Deliveries
pub mod Laws
