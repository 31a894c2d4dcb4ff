-- ===== src/Errors/Create.antt =====
-- `CreateWithPersistError` of bdk-ffi/src/error.rs, the library's error that it stands for, and the conversion.
use bdk_ffi.Prelude.{String}
use bdk_ffi.Extern.{Primitives}

-- `CreateWithPersistError`
pub data CreateWithPersistError : Type 0 where
  persist : String → CreateWithPersistError
  data_already_exists : CreateWithPersistError
  descriptor : String → CreateWithPersistError

-- The library's error, over what its variants carry.
pub data BdkCreateWithPersistError (V : Type 0) : Type 0 where
  persist : V → BdkCreateWithPersistError V
  descriptor : V → BdkCreateWithPersistError V
  data_already_exists : V → BdkCreateWithPersistError V

module _ (P : Primitives) where
  open P use {Payload, to_string}

  -- `impl From<BdkCreateWithPersistError<chain::rusqlite::Error>> for CreateWithPersistError`
  unfoldable pub from_create_with_persist :
      BdkCreateWithPersistError Payload → CreateWithPersistError
  from_create_with_persist (BdkCreateWithPersistError.persist e) =
      CreateWithPersistError.persist (to_string e)
  from_create_with_persist (BdkCreateWithPersistError.descriptor e) =
      CreateWithPersistError.descriptor (to_string e)
  from_create_with_persist (BdkCreateWithPersistError.data_already_exists _) =
      CreateWithPersistError.data_already_exists
