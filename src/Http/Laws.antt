-- ===== src/Http/Laws.antt =====
-- What holds of the HTTP client.
pub mod Pauses
pub mod Sent
pub mod Routed
pub mod Reached
pub mod Wired
pub mod Retries
pub mod Answers
