-- ===== src/Utils/Laws.antt =====
-- What holds of the helpers on text.
pub mod Normal
pub mod Masks
