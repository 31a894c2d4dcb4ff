-- ===== src/Views.antt =====
-- The values of bdk-ffi/src/types.rs that show what the wallet and the clients know.
pub mod Library
pub mod Policy
pub mod Satisfaction
pub mod Records
