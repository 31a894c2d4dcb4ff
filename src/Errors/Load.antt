-- ===== src/Errors/Load.antt =====
-- `LoadWithPersistError` of bdk-ffi/src/error.rs, the library's error that it stands for, and the conversion.
use bdk_ffi.Prelude.{String}
use bdk_ffi.Extern.{Primitives}

-- `LoadWithPersistError`
pub data LoadWithPersistError : Type 0 where
  persist : String → LoadWithPersistError
  invalid_change_set : String → LoadWithPersistError
  could_not_load : LoadWithPersistError

-- The library's error, over what its variants carry.
pub data BdkLoadWithPersistError (V : Type 0) : Type 0 where
  persist : V → BdkLoadWithPersistError V
  invalid_change_set : V → BdkLoadWithPersistError V

module _ (P : Primitives) where
  open P use {Payload, to_string}

  -- `impl From<BdkLoadWithPersistError<chain::rusqlite::Error>> for LoadWithPersistError`
  unfoldable pub from_load_with_persist : BdkLoadWithPersistError Payload → LoadWithPersistError
  from_load_with_persist (BdkLoadWithPersistError.persist e) =
      LoadWithPersistError.persist (to_string e)
  from_load_with_persist (BdkLoadWithPersistError.invalid_change_set e) =
      LoadWithPersistError.invalid_change_set (to_string e)
