-- ===== src/Errors.antt =====
-- bdk-ffi/src/error.rs: the errors that the bindings hand out, and their conversions from the
-- libraries' errors.
pub mod CreateTx
pub mod Electrum
pub mod Esplora
pub mod Address
pub mod Descriptor
pub mod Miniscript
pub mod Psbt
pub mod PsbtFinalize
pub mod Signer
pub mod Transaction
pub mod FromScript
pub mod Load
pub mod Create
pub mod Bip32
pub mod Extract
pub mod Small
