-- ===== src/Keys.antt =====
-- bdk-ffi/src/keys.rs: mnemonics, derivation paths, and descriptor keys.
pub mod Mnemonic
pub mod Library
pub mod Secret
pub mod Public
pub mod Derivation
pub mod AsPublic
pub mod Text
