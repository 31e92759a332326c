-- ===== src/Users/Usecase.antt =====
-- services/users/usecase.
pub mod Auth
pub mod Account
pub mod Forward
