-- ===== src/Errors/PsbtFinalize.antt =====
-- `PsbtFinalizeError` of bdk-ffi/src/error.rs, the library's error that it stands for, and the conversion.
use bdk_ffi.Prelude.{ℕ, String, cast}
use bdk_ffi.Extern.{Primitives}

-- `PsbtFinalizeError`
pub data PsbtFinalizeError : Type 0 where
  input_error : String → ℕ → PsbtFinalizeError
  wrong_input_count : ℕ → ℕ → PsbtFinalizeError
  input_idx_outof_bounds : ℕ → ℕ → PsbtFinalizeError

-- The library's error, over what its variants carry.
pub data BdkPsbtFinalizeError (V : Type 0) : Type 0 where
  input_error : V → ℕ → BdkPsbtFinalizeError V
  wrong_input_count : ℕ → ℕ → BdkPsbtFinalizeError V
  input_idx_outof_bounds : ℕ → ℕ → BdkPsbtFinalizeError V

module _ (P : Primitives) where
  open P use {Payload, to_string}

  -- `impl From<BdkPsbtFinalizeError> for PsbtFinalizeError`
  unfoldable pub from_psbt_finalize : BdkPsbtFinalizeError Payload → PsbtFinalizeError
  from_psbt_finalize (BdkPsbtFinalizeError.input_error error index) =
      PsbtFinalizeError.input_error (to_string error) (cast 32 index)
  from_psbt_finalize (BdkPsbtFinalizeError.wrong_input_count in_tx in_map) =
      PsbtFinalizeError.wrong_input_count (cast 32 in_tx) (cast 32 in_map)
  from_psbt_finalize (BdkPsbtFinalizeError.input_idx_outof_bounds psbt_inp index) =
      PsbtFinalizeError.input_idx_outof_bounds (cast 32 psbt_inp) (cast 32 index)
