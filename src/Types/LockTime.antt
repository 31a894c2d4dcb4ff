-- ===== src/Types/LockTime.antt =====
-- `LockTime` of bdk-ffi/src/types.rs, and its conversions to and from the library's lock time.
use bdk_ffi.Prelude.{ℕ, Result, ok_or, map_ok}
use bdk_ffi.Extern.{Primitives}
use bdk_ffi.Errors.CreateTx.{CreateTxError, lock_time_conversion_error}

pub data LockTime : Type 0 where
  blocks : ℕ → LockTime
  seconds : ℕ → LockTime

module _ (P : Primitives) where
  open P use {Height, Time, height_from, time_from, height_to, time_to}

  -- `absolute::LockTime`
  pub data BdkLockTime : Type 0 where
    blocks : Height → BdkLockTime
    seconds : Time → BdkLockTime

  -- `impl From<BdkLockTime> for LockTime`
  unfoldable pub from_bdk : BdkLockTime → LockTime
  from_bdk (BdkLockTime.blocks height) = LockTime.blocks (height_to height)
  from_bdk (BdkLockTime.seconds time) = LockTime.seconds (time_to time)

  -- `impl TryFrom<&LockTime> for BdkLockTime`
  unfoldable pub try_from : LockTime → Result BdkLockTime CreateTxError
  try_from (LockTime.blocks height) =
      map_ok BdkLockTime.blocks (ok_or (height_from height) lock_time_conversion_error)
  try_from (LockTime.seconds consensus_time) =
      map_ok BdkLockTime.seconds (ok_or (time_from consensus_time) lock_time_conversion_error)
