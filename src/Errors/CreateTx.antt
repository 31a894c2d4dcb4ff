-- ===== src/Errors/CreateTx.antt =====
-- `CreateTxError` of bdk-ffi/src/error.rs, the errors of the libraries that it stands for, and the
-- conversions between them. What a library's error carries is `Payload`, with its `Display` and
-- `Debug`.
use bdk_ffi.Prelude.{ℕ, String, cast}
use bdk_ffi.Extern.{Primitives}

pub data CreateTxError : Type 0 where
  descriptor policy : String → CreateTxError
  spending_policy_required : String → CreateTxError
  version0 version1_csv : CreateTxError
  lock_time : String → String → CreateTxError
  rbf_sequence_csv : String → String → CreateTxError
  fee_too_low fee_rate_too_low : String → CreateTxError
  no_utxos_selected : CreateTxError
  output_below_dust_limit : ℕ → CreateTxError
  change_policy_descriptor : CreateTxError
  coin_selection : String → CreateTxError
  insufficient_funds : ℕ → ℕ → CreateTxError
  no_recipients : CreateTxError
  psbt : String → CreateTxError
  missing_key_origin : String → CreateTxError
  unknown_utxo : String → CreateTxError
  missing_non_witness_utxo : String → CreateTxError
  miniscript_psbt : String → CreateTxError
  push_bytes_error lock_time_conversion_error : CreateTxError

-- `bdk_wallet::error::CreateTxError`, over what its variants carry.
pub data BdkCreateTxError (V : Type 0) : Type 0 where
  descriptor policy : V → BdkCreateTxError V
  spending_policy_required : V → BdkCreateTxError V
  version0 version1_csv : BdkCreateTxError V
  lock_time : V → V → BdkCreateTxError V
  rbf_sequence_csv : V → V → BdkCreateTxError V
  fee_too_low fee_rate_too_low : V → BdkCreateTxError V
  no_utxos_selected : BdkCreateTxError V
  output_below_dust_limit : ℕ → BdkCreateTxError V
  coin_selection : V → BdkCreateTxError V
  no_recipients : BdkCreateTxError V
  psbt : V → BdkCreateTxError V
  missing_key_origin : String → BdkCreateTxError V
  unknown_utxo : BdkCreateTxError V
  missing_non_witness_utxo : V → BdkCreateTxError V
  miniscript_psbt : V → BdkCreateTxError V

module _ (P : Primitives) where
  open P use {OutPoint, Txid, Payload, to_string, debug, outpoint_string, txid_string}

  -- `bdk_wallet::tx_builder::AddUtxoError`
  pub data AddUtxoError : Type 0 where
    unknown_utxo : OutPoint → AddUtxoError

  -- `bdk_wallet::error::BuildFeeBumpError`
  pub data BuildFeeBumpError : Type 0 where
    unknown_utxo : OutPoint → BuildFeeBumpError
    transaction_not_found : Txid → BuildFeeBumpError
    transaction_confirmed : Txid → BuildFeeBumpError
    irreplaceable_transaction : Txid → BuildFeeBumpError
    fee_rate_unavailable : BuildFeeBumpError

  -- `impl From<BdkCreateTxError> for CreateTxError`
  unfoldable pub from_create_tx : BdkCreateTxError Payload → CreateTxError
  from_create_tx (BdkCreateTxError.descriptor e) = descriptor (to_string e)
  from_create_tx (BdkCreateTxError.policy e) = policy (to_string e)
  from_create_tx (BdkCreateTxError.spending_policy_required kind) =
      spending_policy_required (debug kind)
  from_create_tx BdkCreateTxError.version0 = version0
  from_create_tx BdkCreateTxError.version1_csv = version1_csv
  from_create_tx (BdkCreateTxError.lock_time requested required) =
      lock_time (to_string requested) (to_string required)
  from_create_tx (BdkCreateTxError.rbf_sequence_csv sequence csv) =
      rbf_sequence_csv (to_string sequence) (to_string csv)
  from_create_tx (BdkCreateTxError.fee_too_low required) = fee_too_low (to_string required)
  from_create_tx (BdkCreateTxError.fee_rate_too_low required) =
      fee_rate_too_low (to_string required)
  from_create_tx BdkCreateTxError.no_utxos_selected = no_utxos_selected
  from_create_tx (BdkCreateTxError.output_below_dust_limit index) =
      output_below_dust_limit (cast 64 index)
  from_create_tx (BdkCreateTxError.coin_selection e) = coin_selection (to_string e)
  from_create_tx BdkCreateTxError.no_recipients = no_recipients
  from_create_tx (BdkCreateTxError.psbt e) = psbt (to_string e)
  from_create_tx (BdkCreateTxError.missing_key_origin key) = missing_key_origin key
  from_create_tx BdkCreateTxError.unknown_utxo = CreateTxError.unknown_utxo "Unknown"
  from_create_tx (BdkCreateTxError.missing_non_witness_utxo outpoint) =
      missing_non_witness_utxo (to_string outpoint)
  from_create_tx (BdkCreateTxError.miniscript_psbt e) = miniscript_psbt (to_string e)

  -- `impl From<AddUtxoError> for CreateTxError`
  unfoldable pub from_add_utxo : AddUtxoError → CreateTxError
  from_add_utxo (AddUtxoError.unknown_utxo outpoint) =
      CreateTxError.unknown_utxo (outpoint_string outpoint)

  -- `impl From<BuildFeeBumpError> for CreateTxError`
  unfoldable pub from_build_fee_bump : BuildFeeBumpError → CreateTxError
  from_build_fee_bump (BuildFeeBumpError.unknown_utxo outpoint) =
      CreateTxError.unknown_utxo (outpoint_string outpoint)
  from_build_fee_bump (transaction_not_found txid) = CreateTxError.unknown_utxo (txid_string txid)
  from_build_fee_bump (transaction_confirmed txid) = CreateTxError.unknown_utxo (txid_string txid)
  from_build_fee_bump (irreplaceable_transaction txid) =
      CreateTxError.unknown_utxo (txid_string txid)
  from_build_fee_bump fee_rate_unavailable = CreateTxError.fee_rate_too_low "unavailable"
