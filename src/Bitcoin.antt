-- ===== src/Bitcoin.antt =====
-- The Bitcoin types of bdk-ffi/src/bitcoin.rs that are values: addresses and transactions.
pub mod Library
pub mod Address
pub mod Transaction
