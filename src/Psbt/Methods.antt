-- ===== src/Psbt/Methods.antt =====
-- `Psbt` of bdk-ffi/src/bitcoin.rs, `SignOptions` of bdk-ffi/src/types.rs, and `Wallet::sign` and `Wallet::finalize_psbt`
-- of bdk-ffi/src/wallet.rs. A method takes the handle of the PSBT that it is called on.
use bdk_ffi.Prelude.{
  ℕ, Bool, true, false, String, List, Option, none, some, map, Result, ok, err, map_ok, map_err,
  Outcome, returns, unwrap, and_then,
}
use bdk_ffi.Extern.{Primitives}
use bdk_ffi.Bitcoin.Transaction.{Transaction}
use bdk_ffi.Errors.Extract.{
  ExtractTxError, PsbtParseError, BdkPsbtParseError, from_extract_tx, from_psbt_parse,
}
use bdk_ffi.Errors.Psbt.{PsbtError, BdkPsbtError, from_psbt}
use bdk_ffi.Errors.PsbtFinalize.{PsbtFinalizeError, BdkPsbtFinalizeError, from_psbt_finalize}
use bdk_ffi.Errors.Signer.{SignerError, from_signer}
use bdk_ffi.Psbt.Library.{PsbtLibrary, BdkSignOptions}
use bdk_ffi.Psbt.Store.{Store, put, add}

pub record SignOptions : Type 0 where
  pub trust_witness_utxo : Bool
  pub assume_height : Option ℕ
  pub allow_all_sighashes : Bool
  pub try_finalize : Bool
  pub sign_with_tap_internal_key : Bool
  pub allow_grinding : Bool

-- The PSBT is the handle of a new object.
pub record FinalizedPsbtResult : Type 0 where
  pub psbt : ℕ
  pub could_finalize : Bool
  pub errors : Option (List PsbtFinalizeError)

module _ (P : Primitives) (L : PsbtLibrary P) where
  abbrev pub Psbts : Type 0
  Psbts = Store P.Psbt

  -- `Psbt::new`, from what the parser says.
  unfoldable pub parsed :
      Result P.Psbt (BdkPsbtParseError P.Payload)
      → Psbts
      → Outcome (Result ℕ PsbtParseError × Psbts)
  parsed (ok psbt) s = let (h, s') = add psbt s in returns (ok h, s')
  parsed (err e) s = and_then (from_psbt_parse P e) λ error. returns (err error, s)

  unfoldable pub new : String → Psbts → Outcome (Result ℕ PsbtParseError × Psbts)
  unfolding parsed
  new psbt_base64 s = parsed (L.from_str psbt_base64) s

  unfoldable pub serialize : ℕ → Psbts → String
  serialize h s = L.to_string (s.content h)

  unfoldable pub extract_tx : ℕ → Psbts → Result (Transaction P) ExtractTxError
  extract_tx h s = map_err (from_extract_tx P L.to_sat_per_vb_ceil) (L.extract_tx (s.content h))

  unfoldable pub fee : ℕ → Psbts → Result ℕ PsbtError
  fee h s = map_err (from_psbt P) (map_ok L.to_sat (L.fee (s.content h)))

  -- The end of `combine`, on the copy that the library has combined.
  unfoldable pub combined :
      Result (Unit {0}) (BdkPsbtError P.Payload) × P.Psbt → Psbts → Result ℕ PsbtError × Psbts
  combined (ok _, original_psbt) s = let (h, s') = add original_psbt s in (ok h, s')
  combined (err e, _) s = (err (from_psbt P e), s)

  unfoldable pub combine : ℕ → ℕ → Psbts → Result ℕ PsbtError × Psbts
  unfolding combined
  combine h other s = combined (L.combine (s.content h) (s.content other)) s

  -- The result of `finalize`, from what the library says of the copy.
  unfoldable pub finalized :
      Result P.Psbt (P.Psbt × List (BdkPsbtFinalizeError P.Payload))
      → Psbts
      → FinalizedPsbtResult × Psbts
  finalized (ok psbt) s =
      let (h, s') = add psbt s in (record { psbt = h; could_finalize = true; errors = none }, s')
  finalized (err (psbt, errors)) s =
      let (h, s') = add psbt s in
      (
        record {
          psbt = h;
          could_finalize = false;
          errors = some (map (from_psbt_finalize P) errors);
        },
        s',
      )

  unfoldable pub finalize : ℕ → Psbts → FinalizedPsbtResult × Psbts
  unfolding finalized
  finalize h s = finalized (L.finalize (s.content h)) s

  unfoldable pub json_serialize : ℕ → Psbts → Outcome String
  json_serialize h s = unwrap (L.to_json (s.content h))

  -- `impl From<SignOptions> for BdkSignOptions`
  unfoldable pub from_sign_options : SignOptions → BdkSignOptions L.TapLeavesOptions
  from_sign_options options = record {
    trust_witness_utxo = options.trust_witness_utxo;
    assume_height = options.assume_height;
    allow_all_sighashes = options.allow_all_sighashes;
    try_finalize = options.try_finalize;
    tap_leaves_options = L.default_tap_leaves;
    sign_with_tap_internal_key = options.sign_with_tap_internal_key;
    allow_grinding = options.allow_grinding;
  }

  unfoldable pub bdk_sign_options : Option SignOptions → BdkSignOptions L.TapLeavesOptions
  unfolding from_sign_options
  bdk_sign_options (some sign_options) = from_sign_options sign_options
  bdk_sign_options none = L.default_sign_options

  unfoldable pub sign : P.Wallet → ℕ → Option SignOptions → Psbts → Result Bool SignerError × Psbts
  unfolding bdk_sign_options
  sign wallet h sign_options s =
      let (r, psbt) = L.sign wallet (s.content h) (bdk_sign_options sign_options) in
      (map_err (from_signer P) r, put h psbt s)

  unfoldable pub finalize_psbt :
      P.Wallet → ℕ → Option SignOptions → Psbts → Result Bool SignerError × Psbts
  unfolding bdk_sign_options
  finalize_psbt wallet h sign_options s =
      let (r, psbt) = L.finalize_psbt wallet (s.content h) (bdk_sign_options sign_options) in
      (map_err (from_signer P) r, put h psbt s)
