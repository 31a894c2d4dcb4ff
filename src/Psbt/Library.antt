-- ===== src/Psbt/Library.antt =====
-- What the PSBTs use of the libraries, which are not part of the repository.
use bdk_ffi.Prelude.{ℕ, Bool, String, List, Option, Result}
use bdk_ffi.Extern.{Primitives}
use bdk_ffi.Bitcoin.Library.{BdkTransaction}
use bdk_ffi.Errors.Extract.{BdkExtractTxError, BdkPsbtParseError}
use bdk_ffi.Errors.Psbt.{BdkPsbtError}
use bdk_ffi.Errors.PsbtFinalize.{BdkPsbtFinalizeError}
use bdk_ffi.Errors.Signer.{BdkSignerError}

-- `bdk_wallet::SignOptions`
pub record BdkSignOptions (TapLeavesOptions : Type 0) : Type 0 where
  pub trust_witness_utxo : Bool
  pub assume_height : Option ℕ
  pub allow_all_sighashes : Bool
  pub try_finalize : Bool
  pub tap_leaves_options : TapLeavesOptions
  pub sign_with_tap_internal_key : Bool
  pub allow_grinding : Bool

-- A method on `&mut self` gives the changed PSBT next to its result.
pub record PsbtLibrary (P : Primitives) : Type 1 where
  pub JsonError : Type 0
  pub TapLeavesOptions : Type 0
  -- `TapLeavesOptions::default()` and `SignOptions::default()`
  pub default_tap_leaves : TapLeavesOptions
  pub default_sign_options : BdkSignOptions TapLeavesOptions
  pub to_sat_per_vb_ceil : P.FeeRate → ℕ
  pub to_sat : P.Amount → ℕ
  pub from_str : String → Result P.Psbt (BdkPsbtParseError P.Payload)
  pub to_string : P.Psbt → String
  pub to_json : P.Psbt → Result String JsonError
  pub extract_tx : P.Psbt → Result (BdkTransaction P) (BdkExtractTxError P.FeeRate P.Payload)
  pub fee : P.Psbt → Result P.Amount (BdkPsbtError P.Payload)
  pub combine : P.Psbt → P.Psbt → Result (Unit {0}) (BdkPsbtError P.Payload) × P.Psbt
  pub finalize : P.Psbt → Result P.Psbt (P.Psbt × List (BdkPsbtFinalizeError P.Payload))
  pub sign :
      P.Wallet
      → P.Psbt
      → BdkSignOptions TapLeavesOptions
      → Result Bool (BdkSignerError P.Payload) × P.Psbt
  pub finalize_psbt :
      P.Wallet
      → P.Psbt
      → BdkSignOptions TapLeavesOptions
      → Result Bool (BdkSignerError P.Payload) × P.Psbt
