-- ===== src/Errors/Psbt.antt =====
-- `PsbtError` of bdk-ffi/src/error.rs, the library's error that it stands for, and the conversion.
use bdk_ffi.Prelude.{ℕ, String}
use bdk_ffi.Extern.{Primitives}

-- `PsbtError`
pub data PsbtError : Type 0 where
  invalid_magic : PsbtError
  missing_utxo : PsbtError
  invalid_separator : PsbtError
  psbt_utxo_out_of_bounds : PsbtError
  invalid_key : String → PsbtError
  invalid_proprietary_key : PsbtError
  duplicate_key : String → PsbtError
  unsigned_tx_has_script_sigs : PsbtError
  unsigned_tx_has_script_witnesses : PsbtError
  must_have_unsigned_tx : PsbtError
  no_more_pairs : PsbtError
  unexpected_unsigned_tx : PsbtError
  non_standard_sighash_type : ℕ → PsbtError
  invalid_hash : String → PsbtError
  invalid_preimage_hash_pair : PsbtError
  combine_inconsistent_key_sources : String → PsbtError
  consensus_encoding : String → PsbtError
  negative_fee : PsbtError
  fee_overflow : PsbtError
  invalid_public_key : String → PsbtError
  invalid_secp256k1_public_key : String → PsbtError
  invalid_x_only_public_key : PsbtError
  invalid_ecdsa_signature : String → PsbtError
  invalid_taproot_signature : String → PsbtError
  invalid_control_block : PsbtError
  invalid_leaf_version : PsbtError
  taproot : PsbtError
  tap_tree : String → PsbtError
  x_pub_key : PsbtError
  version : String → PsbtError
  partial_data_consumption : PsbtError
  io : String → PsbtError
  other_psbt_err : PsbtError

-- The library's error, over what its variants carry; it may have more variants, which `other` stands for, with the error
-- as a whole.
pub data BdkPsbtError (V : Type 0) : Type 0 where
  invalid_magic : BdkPsbtError V
  missing_utxo : BdkPsbtError V
  invalid_separator : BdkPsbtError V
  psbt_utxo_out_ofbounds : BdkPsbtError V
  invalid_key : V → BdkPsbtError V
  invalid_proprietary_key : BdkPsbtError V
  duplicate_key : V → BdkPsbtError V
  unsigned_tx_has_script_sigs : BdkPsbtError V
  unsigned_tx_has_script_witnesses : BdkPsbtError V
  must_have_unsigned_tx : BdkPsbtError V
  no_more_pairs : BdkPsbtError V
  unexpected_unsigned_tx : BdkPsbtError V
  non_standard_sighash_type : ℕ → BdkPsbtError V
  invalid_hash : V → BdkPsbtError V
  invalid_preimage_hash_pair : BdkPsbtError V
  combine_inconsistent_key_sources : V → BdkPsbtError V
  consensus_encoding : V → BdkPsbtError V
  negative_fee : BdkPsbtError V
  fee_overflow : BdkPsbtError V
  invalid_public_key : V → BdkPsbtError V
  invalid_secp256k1_public_key : V → BdkPsbtError V
  invalid_x_only_public_key : BdkPsbtError V
  invalid_ecdsa_signature : V → BdkPsbtError V
  invalid_taproot_signature : V → BdkPsbtError V
  invalid_control_block : BdkPsbtError V
  invalid_leaf_version : BdkPsbtError V
  taproot : V → BdkPsbtError V
  tap_tree : V → BdkPsbtError V
  x_pub_key : V → BdkPsbtError V
  version : V → BdkPsbtError V
  partial_data_consumption : BdkPsbtError V
  io : V → BdkPsbtError V
  other : V → BdkPsbtError V

module _ (P : Primitives) where
  open P use {Payload, to_string}

  -- `impl From<BdkPsbtError> for PsbtError`
  unfoldable pub from_psbt : BdkPsbtError Payload → PsbtError
  from_psbt BdkPsbtError.invalid_magic = PsbtError.invalid_magic
  from_psbt BdkPsbtError.missing_utxo = PsbtError.missing_utxo
  from_psbt BdkPsbtError.invalid_separator = PsbtError.invalid_separator
  from_psbt BdkPsbtError.psbt_utxo_out_ofbounds = PsbtError.psbt_utxo_out_of_bounds
  from_psbt (BdkPsbtError.invalid_key key) = PsbtError.invalid_key (to_string key)
  from_psbt BdkPsbtError.invalid_proprietary_key = PsbtError.invalid_proprietary_key
  from_psbt (BdkPsbtError.duplicate_key key) = PsbtError.duplicate_key (to_string key)
  from_psbt BdkPsbtError.unsigned_tx_has_script_sigs = PsbtError.unsigned_tx_has_script_sigs
  from_psbt BdkPsbtError.unsigned_tx_has_script_witnesses =
      PsbtError.unsigned_tx_has_script_witnesses
  from_psbt BdkPsbtError.must_have_unsigned_tx = PsbtError.must_have_unsigned_tx
  from_psbt BdkPsbtError.no_more_pairs = PsbtError.no_more_pairs
  from_psbt BdkPsbtError.unexpected_unsigned_tx = PsbtError.unexpected_unsigned_tx
  from_psbt (BdkPsbtError.non_standard_sighash_type sighash) =
      PsbtError.non_standard_sighash_type sighash
  from_psbt (BdkPsbtError.invalid_hash hash) = PsbtError.invalid_hash (to_string hash)
  from_psbt BdkPsbtError.invalid_preimage_hash_pair = PsbtError.invalid_preimage_hash_pair
  from_psbt (BdkPsbtError.combine_inconsistent_key_sources xpub) =
      PsbtError.combine_inconsistent_key_sources (to_string xpub)
  from_psbt (BdkPsbtError.consensus_encoding encoding_error) =
      PsbtError.consensus_encoding (to_string encoding_error)
  from_psbt BdkPsbtError.negative_fee = PsbtError.negative_fee
  from_psbt BdkPsbtError.fee_overflow = PsbtError.fee_overflow
  from_psbt (BdkPsbtError.invalid_public_key e) = PsbtError.invalid_public_key (to_string e)
  from_psbt (BdkPsbtError.invalid_secp256k1_public_key e) =
      PsbtError.invalid_secp256k1_public_key (to_string e)
  from_psbt BdkPsbtError.invalid_x_only_public_key = PsbtError.invalid_x_only_public_key
  from_psbt (BdkPsbtError.invalid_ecdsa_signature e) =
      PsbtError.invalid_ecdsa_signature (to_string e)
  from_psbt (BdkPsbtError.invalid_taproot_signature e) =
      PsbtError.invalid_taproot_signature (to_string e)
  from_psbt BdkPsbtError.invalid_control_block = PsbtError.invalid_control_block
  from_psbt BdkPsbtError.invalid_leaf_version = PsbtError.invalid_leaf_version
  from_psbt (BdkPsbtError.taproot _) = PsbtError.taproot
  from_psbt (BdkPsbtError.tap_tree e) = PsbtError.tap_tree (to_string e)
  from_psbt (BdkPsbtError.x_pub_key _) = PsbtError.x_pub_key
  from_psbt (BdkPsbtError.version e) = PsbtError.version (to_string e)
  from_psbt BdkPsbtError.partial_data_consumption = PsbtError.partial_data_consumption
  from_psbt (BdkPsbtError.io e) = PsbtError.io (to_string e)
  from_psbt (BdkPsbtError.other _) = PsbtError.other_psbt_err
