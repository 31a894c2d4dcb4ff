-- ===== src/Builder/Inner.antt =====
-- The library's own transaction builder, which `finish` of bdk-ffi/src/tx_builder.rs drives. It is
-- not part of the repository: a parameter, with one operation for each method that is called.
use bdk_ffi.Prelude.{ℕ, Bool, String, List, Option, Result}
use bdk_ffi.Prelude.Actions.{Action}
use bdk_ffi.Extern.{Primitives, KeychainKind, ChangeSpendPolicy}
use bdk_ffi.Errors.CreateTx.{BdkCreateTxError, AddUtxoError, BuildFeeBumpError}
use bdk_ffi.Types.LockTime.{BdkLockTime}

-- `BTreeMap<String, Vec<usize>>`, as the function that looks a key up.
abbrev pub PolicyPath : Type 0
PolicyPath = String → Option (List ℕ)

-- A method on `&mut self` is a function on the builder. `release` ends the builder's borrow of the
-- wallet, and gives the wallet as the builder leaves it.
pub record BdkTxBuilder (P : Primitives) : Type 1 where
  pub Builder : Type 0
  pub build_tx : P.Wallet → Builder
  pub build_fee_bump : P.Txid → P.Wallet → Result Builder (BuildFeeBumpError P × P.Wallet)
  pub add_global_xpubs : Builder → Builder
  pub add_recipient : P.Script → P.Amount → Builder → Builder
  pub policy_path : PolicyPath → KeychainKind → Builder → Builder
  pub change_policy : ChangeSpendPolicy → Builder → Builder
  pub add_utxos : List P.OutPoint → Action Builder (AddUtxoError P) (Unit {0})
  pub unspendable : List P.OutPoint → Builder → Builder
  pub manually_selected_only : Builder → Builder
  pub fee_rate : P.FeeRate → Builder → Builder
  pub fee_absolute : P.Amount → Builder → Builder
  pub drain_wallet : Builder → Builder
  pub drain_to : P.Script → Builder → Builder
  pub set_exact_sequence : ℕ → Builder → Builder
  pub add_data : P.PushBytes → Builder → Builder
  pub current_height : ℕ → Builder → Builder
  pub nlocktime : BdkLockTime P → Builder → Builder
  pub allow_dust : Bool → Builder → Builder
  -- The version is an `i32`, by its 32 bits.
  pub version : ℕ → Builder → Builder
  pub finish : Builder → Result P.Psbt (BdkCreateTxError P.Payload) × P.Wallet
  pub release : Builder → P.Wallet
  -- The order in which a hash set gives its elements, which is unspecified.
  pub iterate : List P.OutPoint → List P.OutPoint
