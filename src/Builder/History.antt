-- ===== src/Builder/History.antt =====
-- What a chain of fluent calls of `TxBuilder` amounts to, read off the chain itself.
pub mod Summary
use bdk_ffi.Prelude.{
  ℕ, Bool, true, false, List, [], ◌∷◌, ◌++◌, Option, none, some, map, cast, ◌≡◌, refl, ◌∙◌, ap,
  if◌then◌else◌, arith,
}
use mathlib.Core.Option
use bdk_ffi.Prelude.HashSet.{
  eq, contains, Distinct, insert-Distinct, contains-insert, contains-from_iter, from_iter-Distinct,
}
use bdk_ffi.Extern.{
  Primitives, KeychainKind, external, internal, ChangeSpendPolicy, change_allowed, only_change,
  change_forbidden,
}
use bdk_ffi.Types.LockTime.{LockTime}
use bdk_ffi.Builder.Inner.{PolicyPath}
use bdk_ffi.Builder.Fluent
use bdk_ffi.Builder.Fluent.{TxBuilder}

-- What one call does to a list: it adds at the end, it replaces the list, or it leaves it alone.
pub data Change (A : Type 0) : Type 0 where
  appends replaces : List A → Change A
  keeps : Change A

abbrev pub changed : {A : Type 0} → Change A → List A → List A
changed (appends xs) old = old ++ xs
changed (replaces xs) old = xs
changed keeps old = old

abbrev pub newer : {A : Type 0} → Option A → Option A → Option A
newer none old = old
newer (some a) old = some a

-- The history of a list, from what each item of a log does to it; the latest item stands first.
abbrev pub gathered : {S A : Type 0} → (S → Change A) → List S → List A
gathered f [] = []
gathered f (s ∷ history) = changed (f s) (gathered f history)

-- The value of the latest item that sets one.
abbrev pub latest : {S A : Type 0} → (S → Option A) → List S → Option A
latest f [] = none
latest f (s ∷ history) = newer (f s) (latest f history)

module _ (P : Primitives) where
  open P use {Script, Amount, FeeRate, OutPoint, outpoint_discrete, usize_bits}

  -- A fluent call with its arguments.
  pub data Setting : Type 0 where
    add_global_xpubs : Setting
    add_recipient : Script → Amount → Setting
    set_recipients : List (Script × Amount) → Setting
    add_unspendable : OutPoint → Setting
    unspendable : List OutPoint → Setting
    add_utxo : OutPoint → Setting
    add_utxos : List OutPoint → Setting
    policy_path : PolicyPath → KeychainKind → Setting
    change_policy : ChangeSpendPolicy → Setting
    do_not_spend_change only_spend_change : Setting
    manually_selected_only : Setting
    fee_rate : FeeRate → Setting
    fee_absolute : Amount → Setting
    drain_wallet : Setting
    drain_to : Script → Setting
    set_exact_sequence : ℕ → Setting
    add_data : List ℕ → Setting
    current_height : ℕ → Setting
    nlocktime : LockTime → Setting
    allow_dust : Bool → Setting
    version : ℕ → Setting

  pub apply : Setting → TxBuilder P → TxBuilder P
  unfolding Fluent.add_global_xpubs Fluent.add_recipient Fluent.set_recipients
      Fluent.add_unspendable Fluent.unspendable Fluent.add_utxo Fluent.policy_path
      Fluent.change_policy Fluent.do_not_spend_change Fluent.only_spend_change
      Fluent.manually_selected_only Fluent.fee_rate Fluent.fee_absolute Fluent.drain_wallet
      Fluent.drain_to Fluent.set_exact_sequence Fluent.add_data Fluent.current_height
      Fluent.nlocktime Fluent.allow_dust Fluent.version
  apply add_global_xpubs = Fluent.add_global_xpubs P
  apply (add_recipient script amount) = Fluent.add_recipient P script amount
  apply (set_recipients recipients) = Fluent.set_recipients P recipients
  apply (add_unspendable outpoint) = Fluent.add_unspendable P outpoint
  apply (unspendable outpoints) = Fluent.unspendable P outpoints
  apply (add_utxo outpoint) = Fluent.add_utxo P outpoint
  apply (add_utxos outpoints) = Fluent.add_utxos P outpoints
  apply (policy_path path keychain) = Fluent.policy_path P path keychain
  apply (change_policy policy) = Fluent.change_policy P policy
  apply do_not_spend_change = Fluent.do_not_spend_change P
  apply only_spend_change = Fluent.only_spend_change P
  apply manually_selected_only = Fluent.manually_selected_only P
  apply (fee_rate rate) = Fluent.fee_rate P rate
  apply (fee_absolute amount) = Fluent.fee_absolute P amount
  apply drain_wallet = Fluent.drain_wallet P
  apply (drain_to script) = Fluent.drain_to P script
  apply (set_exact_sequence nsequence) = Fluent.set_exact_sequence P nsequence
  apply (add_data bytes) = Fluent.add_data P bytes
  apply (current_height height) = Fluent.current_height P height
  apply (nlocktime locktime) = Fluent.nlocktime P locktime
  apply (allow_dust allow) = Fluent.allow_dust P allow
  apply (version number) = Fluent.version P number

  -- The builder after a chain of calls, the latest call first.
  pub built : List Setting → TxBuilder P
  unfolding apply Fluent.new
  built [] = Fluent.new P
  built (s ∷ history) = apply s (built history)
