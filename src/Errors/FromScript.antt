-- ===== src/Errors/FromScript.antt =====
-- `FromScriptError` of bdk-ffi/src/error.rs, the library's error that it stands for, and the conversion.
use bdk_ffi.Prelude.{String}
use bdk_ffi.Extern.{Primitives}

-- `FromScriptError`
pub data FromScriptError : Type 0 where
  unrecognized_script : FromScriptError
  witness_program : String → FromScriptError
  witness_version : String → FromScriptError
  other_from_script_err : FromScriptError

-- The library's error, over what its variants carry; it may have more variants, which `other` stands for, with the error
-- as a whole.
pub data BdkFromScriptError (V : Type 0) : Type 0 where
  unrecognized_script : BdkFromScriptError V
  witness_program : V → BdkFromScriptError V
  witness_version : V → BdkFromScriptError V
  other : V → BdkFromScriptError V

module _ (P : Primitives) where
  open P use {Payload, to_string}

  -- `impl From<BdkFromScriptError> for FromScriptError`
  unfoldable pub from_from_script : BdkFromScriptError Payload → FromScriptError
  from_from_script BdkFromScriptError.unrecognized_script = FromScriptError.unrecognized_script
  from_from_script (BdkFromScriptError.witness_program e) =
      FromScriptError.witness_program (to_string e)
  from_from_script (BdkFromScriptError.witness_version e) =
      FromScriptError.witness_version (to_string e)
  from_from_script (BdkFromScriptError.other _) = FromScriptError.other_from_script_err
