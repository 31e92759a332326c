-- ===== src/Utils.antt =====
-- The helpers on text: internal/utils/msisdn.go and internal/utils/strings.go.
pub mod Msisdn
pub mod Strings
pub mod Laws
