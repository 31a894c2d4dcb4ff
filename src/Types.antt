-- ===== src/Types.antt =====
-- bdk-ffi/src/types.rs: the values that the bindings hand out.
pub mod LockTime
pub mod Roundtrip
