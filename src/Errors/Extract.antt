-- ===== src/Errors/Extract.antt =====
-- `ExtractTxError` and `PsbtParseError` of bdk-ffi/src/error.rs, the libraries' errors that they stand for, and the
-- conversions.
use bdk_ffi.Prelude.{ℕ, String, Outcome, returns, panics}
use bdk_ffi.Extern.{Primitives}

pub data ExtractTxError : Type 0 where
  absurd_fee_rate : ℕ → ExtractTxError
  missing_input_value sending_too_much other_extract_tx_err : ExtractTxError

-- The library's error, which carries the transaction or the PSBT as well; it may have more variants.
pub data BdkExtractTxError (FeeRate V : Type 0) : Type 0 where
  absurd_fee_rate : FeeRate → V → BdkExtractTxError FeeRate V
  missing_input_value sending_too_much other : V → BdkExtractTxError FeeRate V

pub data PsbtParseError : Type 0 where
  psbt_encoding base64_encoding : String → PsbtParseError

-- The library's error, which may have more variants.
pub data BdkPsbtParseError (V : Type 0) : Type 0 where
  psbt_encoding base64_encoding other : V → BdkPsbtParseError V

module _ (P : Primitives) where
  -- `impl From<BdkExtractTxError> for ExtractTxError`, over `FeeRate::to_sat_per_vb_ceil`
  unfoldable pub from_extract_tx :
      (P.FeeRate → ℕ) → BdkExtractTxError P.FeeRate P.Payload → ExtractTxError
  from_extract_tx to_sat_per_vb_ceil (BdkExtractTxError.absurd_fee_rate fee_rate _) =
      ExtractTxError.absurd_fee_rate (to_sat_per_vb_ceil fee_rate)
  from_extract_tx to_sat_per_vb_ceil (BdkExtractTxError.missing_input_value _) =
      ExtractTxError.missing_input_value
  from_extract_tx to_sat_per_vb_ceil (BdkExtractTxError.sending_too_much _) =
      ExtractTxError.sending_too_much
  from_extract_tx to_sat_per_vb_ceil (BdkExtractTxError.other _) = other_extract_tx_err

  -- `impl From<BdkPsbtParseError> for PsbtParseError`
  unfoldable pub from_psbt_parse : BdkPsbtParseError P.Payload → Outcome PsbtParseError
  from_psbt_parse (BdkPsbtParseError.psbt_encoding e) =
      returns (PsbtParseError.psbt_encoding (P.to_string e))
  from_psbt_parse (BdkPsbtParseError.base64_encoding e) =
      returns (PsbtParseError.base64_encoding (P.to_string e))
  from_psbt_parse (BdkPsbtParseError.other _) = panics
