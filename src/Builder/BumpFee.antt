-- ===== src/Builder/BumpFee.antt =====
-- `BumpFeeTxBuilder` of bdk-ffi/src/tx_builder.rs.
use bdk_ffi.Prelude.{ℕ, Bool, false, String, Option, none, some, Result, ok, err}
use bdk_ffi.Prelude.Actions.{◌>>◌, effect, when, when_some}
use bdk_ffi.Extern.{Primitives}
use bdk_ffi.Errors.CreateTx.{CreateTxError, BuildFeeBumpError, from_build_fee_bump}
use bdk_ffi.Types.LockTime.{LockTime}
use bdk_ffi.Builder.Inner.{BdkTxBuilder}
use bdk_ffi.Builder.Finish.{Step, set_locktime, conclude}

module _ (P : Primitives) where
  open P use {FeeRate}

  pub record BumpFeeTxBuilder : Type 0 where
    pub txid : String
    pub fee_rate : FeeRate
    pub sequence : Option ℕ
    pub current_height : Option ℕ
    pub locktime : Option LockTime
    pub allow_dust : Bool
    pub version : Option ℕ

  unfoldable pub new : String → FeeRate → BumpFeeTxBuilder
  new txid fee_rate = record {
    txid = txid;
    fee_rate = fee_rate;
    sequence = none;
    current_height = none;
    locktime = none;
    allow_dust = false;
    version = none;
  }

  unfoldable pub set_exact_sequence : ℕ → BumpFeeTxBuilder → BumpFeeTxBuilder
  set_exact_sequence nsequence b = record b { sequence = some nsequence }

  unfoldable pub current_height : ℕ → BumpFeeTxBuilder → BumpFeeTxBuilder
  current_height height b = record b { current_height = some height }

  unfoldable pub nlocktime : LockTime → BumpFeeTxBuilder → BumpFeeTxBuilder
  nlocktime locktime b = record b { locktime = some locktime }

  unfoldable pub allow_dust : Bool → BumpFeeTxBuilder → BumpFeeTxBuilder
  allow_dust allow b = record b { allow_dust = allow }

  unfoldable pub version : ℕ → BumpFeeTxBuilder → BumpFeeTxBuilder
  version number b = record b { version = some number }

module _ (P : Primitives) (I : BdkTxBuilder P) where
  -- The calls between `build_fee_bump` and the library's own `finish`.
  unfoldable pub prepare : BumpFeeTxBuilder P → Step P I
  prepare b = do
    effect (I.fee_rate b.fee_rate)
    when_some b.sequence (λ sequence. effect (I.set_exact_sequence sequence))
    when_some b.current_height (λ height. effect (I.current_height height))
    when_some b.locktime (set_locktime P I)
    when b.allow_dust (effect (I.allow_dust b.allow_dust))
    when_some b.version (λ version. effect (I.version version))

  -- What follows `wallet.build_fee_bump(txid)`.
  unfoldable pub after_bump :
      BumpFeeTxBuilder P
      → Result I.Builder (BuildFeeBumpError P × P.Wallet)
      → Result P.Psbt CreateTxError × P.Wallet
  after_bump b (err (e, wallet)) = (err (from_build_fee_bump P e), wallet)
  after_bump b (ok s) = conclude P I (prepare b s)

  unfoldable pub finish : BumpFeeTxBuilder P → P.Wallet → Result P.Psbt CreateTxError × P.Wallet
  finish b wallet = elim (P.parse_txid b.txid) [
    | none ↦ (err (CreateTxError.unknown_utxo b.txid), wallet)
    | some txid ↦ after_bump b (I.build_fee_bump txid wallet)
  ]
