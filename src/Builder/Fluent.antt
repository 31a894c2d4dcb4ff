-- ===== src/Builder/Fluent.antt =====
-- `TxBuilder` of bdk-ffi/src/tx_builder.rs: its fields and its fluent methods. `Arc::new(TxBuilder
-- { field, ..self.clone() })` is a new record; the newtypes `Script`, `Amount` and `FeeRate` are
-- what they wrap. The field `data` is called `payload`.
use bdk_ffi.Prelude.{ℕ, Bool, true, false, List, [], ◌∷◌, ◌++◌, Option, none, some, map, cast}
use mathlib.Core.Option
use bdk_ffi.Prelude.HashSet.{insert, from_iter}
use bdk_ffi.Extern.{
  Primitives, KeychainKind, external, internal, ChangeSpendPolicy, change_allowed, only_change,
  change_forbidden,
}
use bdk_ffi.Types.LockTime.{LockTime}
use bdk_ffi.Builder.Inner.{PolicyPath}

module _ (P : Primitives) where
  open P use {Script, Amount, FeeRate, OutPoint, outpoint_discrete}

  pub record TxBuilder : Type 0 where
    pub add_global_xpubs : Bool
    pub recipients : List (Script × Amount)
    pub utxos : List OutPoint
    pub unspendable : List OutPoint
    pub internal_policy_path : Option PolicyPath
    pub external_policy_path : Option PolicyPath
    pub change_policy : ChangeSpendPolicy
    pub manually_selected_only : Bool
    pub fee_rate : Option FeeRate
    pub fee_absolute : Option Amount
    pub drain_wallet : Bool
    pub drain_to : Option Script
    pub sequence : Option ℕ
    pub payload : List ℕ
    pub current_height : Option ℕ
    pub locktime : Option LockTime
    pub allow_dust : Bool
    pub version : Option ℕ

  unfoldable pub new : TxBuilder
  new = record {
    add_global_xpubs = false;
    recipients = [];
    utxos = [];
    unspendable = [];
    internal_policy_path = none;
    external_policy_path = none;
    change_policy = change_allowed;
    manually_selected_only = false;
    fee_rate = none;
    fee_absolute = none;
    drain_wallet = false;
    drain_to = none;
    sequence = none;
    payload = [];
    current_height = none;
    locktime = none;
    allow_dust = false;
    version = none;
  }

  unfoldable pub add_global_xpubs : TxBuilder → TxBuilder
  add_global_xpubs b = record b { add_global_xpubs = true }

  unfoldable pub add_recipient : Script → Amount → TxBuilder → TxBuilder
  add_recipient script amount b = record b { recipients = b.recipients ++ ((script, amount) ∷ []) }

  unfoldable pub set_recipients : List (Script × Amount) → TxBuilder → TxBuilder
  set_recipients recipients b = record b { recipients = recipients }

  unfoldable pub add_unspendable : OutPoint → TxBuilder → TxBuilder
  add_unspendable outpoint b = record b {
    unspendable = insert outpoint_discrete outpoint b.unspendable;
  }

  unfoldable pub unspendable : List OutPoint → TxBuilder → TxBuilder
  unspendable outpoints b = record b { unspendable = from_iter outpoint_discrete outpoints }

  unfoldable pub add_utxos : List OutPoint → TxBuilder → TxBuilder
  add_utxos outpoints b = record b { utxos = b.utxos ++ outpoints }

  unfoldable pub add_utxo : OutPoint → TxBuilder → TxBuilder
  unfolding add_utxos
  add_utxo outpoint b = add_utxos (outpoint ∷ []) b

  unfoldable pub policy_path : PolicyPath → KeychainKind → TxBuilder → TxBuilder
  policy_path path internal b = record b {
    internal_policy_path = some (λ key. Option.map (map (cast P.usize_bits)) (path key));
  }
  policy_path path external b = record b {
    external_policy_path = some (λ key. Option.map (map (cast P.usize_bits)) (path key));
  }

  unfoldable pub change_policy : ChangeSpendPolicy → TxBuilder → TxBuilder
  change_policy policy b = record b { change_policy = policy }

  unfoldable pub do_not_spend_change : TxBuilder → TxBuilder
  do_not_spend_change b = record b { change_policy = change_forbidden }

  unfoldable pub only_spend_change : TxBuilder → TxBuilder
  only_spend_change b = record b { change_policy = only_change }

  unfoldable pub manually_selected_only : TxBuilder → TxBuilder
  manually_selected_only b = record b { manually_selected_only = true }

  unfoldable pub fee_rate : FeeRate → TxBuilder → TxBuilder
  fee_rate rate b = record b { fee_rate = some rate }

  unfoldable pub fee_absolute : Amount → TxBuilder → TxBuilder
  fee_absolute fee_amount b = record b { fee_absolute = some fee_amount }

  unfoldable pub drain_wallet : TxBuilder → TxBuilder
  drain_wallet b = record b { drain_wallet = true }

  unfoldable pub drain_to : Script → TxBuilder → TxBuilder
  drain_to script b = record b { drain_to = some script }

  unfoldable pub set_exact_sequence : ℕ → TxBuilder → TxBuilder
  set_exact_sequence nsequence b = record b { sequence = some nsequence }

  unfoldable pub add_data : List ℕ → TxBuilder → TxBuilder
  add_data bytes b = record b { payload = bytes }

  unfoldable pub current_height : ℕ → TxBuilder → TxBuilder
  current_height height b = record b { current_height = some height }

  unfoldable pub nlocktime : LockTime → TxBuilder → TxBuilder
  nlocktime locktime b = record b { locktime = some locktime }

  unfoldable pub allow_dust : Bool → TxBuilder → TxBuilder
  allow_dust allow b = record b { allow_dust = allow }

  unfoldable pub version : ℕ → TxBuilder → TxBuilder
  version number b = record b { version = some number }
