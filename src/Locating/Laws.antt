-- ===== src/Locating/Laws.antt =====
-- What the location service guarantees.
pub mod Nearby
pub mod Tracking
