-- ===== src/Users/Laws.antt =====
-- What holds of the users service.
pub mod Otps
pub mod Origin
pub mod SignIn
pub mod Drivers
pub mod Clients
pub mod Programs
pub mod Registry
pub mod Acts
pub mod Identity
pub mod Admission
pub mod Contexts
pub mod Notices
pub mod Pickups
