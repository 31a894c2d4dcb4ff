-- ===== src/Wallet.antt =====
-- `Wallet` of bdk-ffi/src/wallet.rs and its store.
pub mod Library
pub mod Store
pub mod Methods
pub mod Loading
pub mod Transactions
pub mod Revealing
pub mod Rounds
pub mod Restart
