-- ===== src/Builder.antt =====
-- bdk-ffi/src/tx_builder.rs: the two transaction builders and their `finish`.
pub mod Inner
pub mod Fluent
pub mod Finish
pub mod BumpFee
pub mod History
pub mod Calls
pub mod Fees
pub mod Verdict
pub mod Outcome
pub mod BumpOutcome
