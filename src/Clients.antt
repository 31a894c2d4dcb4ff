-- ===== src/Clients.antt =====
-- The queries of the network clients of bdk-ffi/src/electrum.rs and bdk-ffi/src/esplora.rs.
pub mod Library
pub mod Electrum
pub mod Esplora
