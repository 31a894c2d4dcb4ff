-- ===== src/Psbt.antt =====
-- The shared PSBTs of bdk-ffi/src/bitcoin.rs, and the two methods of `Wallet` (bdk-ffi/src/wallet.rs) that change one.
pub mod Library
pub mod Store
pub mod Methods
pub mod Commands
pub mod Copies
