-- ===== src/Errors/Signer.antt =====
-- `SignerError` of bdk-ffi/src/error.rs, the library's error that it stands for, and the conversion.
use bdk_ffi.Prelude.{String}
use bdk_ffi.Extern.{Primitives}

-- `SignerError`
pub data SignerError : Type 0 where
  missing_key : SignerError
  invalid_key : SignerError
  user_canceled : SignerError
  input_index_out_of_range : SignerError
  missing_non_witness_utxo : SignerError
  invalid_non_witness_utxo : SignerError
  missing_witness_utxo : SignerError
  missing_witness_script : SignerError
  missing_hd_keypath : SignerError
  non_standard_sighash : SignerError
  invalid_sighash : SignerError
  sighash_p2wpkh : String → SignerError
  sighash_taproot : String → SignerError
  tx_inputs_index_error : String → SignerError
  miniscript_psbt : String → SignerError
  external : String → SignerError
  psbt : String → SignerError

-- The library's error, over what its variants carry.
pub data BdkSignerError (V : Type 0) : Type 0 where
  missing_key : BdkSignerError V
  invalid_key : BdkSignerError V
  user_canceled : BdkSignerError V
  input_index_out_of_range : BdkSignerError V
  missing_non_witness_utxo : BdkSignerError V
  invalid_non_witness_utxo : BdkSignerError V
  missing_witness_utxo : BdkSignerError V
  missing_witness_script : BdkSignerError V
  missing_hd_keypath : BdkSignerError V
  non_standard_sighash : BdkSignerError V
  invalid_sighash : BdkSignerError V
  sighash_taproot : V → BdkSignerError V
  miniscript_psbt : V → BdkSignerError V
  external : String → BdkSignerError V
  psbt : V → BdkSignerError V

module _ (P : Primitives) where
  open P use {Payload, to_string}

  -- `impl From<BdkSignerError> for SignerError`
  unfoldable pub from_signer : BdkSignerError Payload → SignerError
  from_signer BdkSignerError.missing_key = SignerError.missing_key
  from_signer BdkSignerError.invalid_key = SignerError.invalid_key
  from_signer BdkSignerError.user_canceled = SignerError.user_canceled
  from_signer BdkSignerError.input_index_out_of_range = SignerError.input_index_out_of_range
  from_signer BdkSignerError.missing_non_witness_utxo = SignerError.missing_non_witness_utxo
  from_signer BdkSignerError.invalid_non_witness_utxo = SignerError.invalid_non_witness_utxo
  from_signer BdkSignerError.missing_witness_utxo = SignerError.missing_witness_utxo
  from_signer BdkSignerError.missing_witness_script = SignerError.missing_witness_script
  from_signer BdkSignerError.missing_hd_keypath = SignerError.missing_hd_keypath
  from_signer BdkSignerError.non_standard_sighash = SignerError.non_standard_sighash
  from_signer BdkSignerError.invalid_sighash = SignerError.invalid_sighash
  from_signer (BdkSignerError.sighash_taproot e) = SignerError.sighash_taproot (to_string e)
  from_signer (BdkSignerError.miniscript_psbt e) = SignerError.miniscript_psbt (to_string e)
  from_signer (BdkSignerError.external e) = SignerError.external e
  from_signer (BdkSignerError.psbt e) = SignerError.psbt (to_string e)
