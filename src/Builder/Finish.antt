-- ===== src/Builder/Finish.antt =====
-- `TxBuilder::finish` of bdk-ffi/src/tx_builder.rs: each field is handed to the library's builder in
-- turn, and what can fail ends the function with `?`. The wallet is locked for the whole call, so it
-- goes in and comes out as a value.
use bdk_ffi.Prelude.{ℕ, not, List, is_empty}
use bdk_ffi.Prelude.{Result, ok, err, map_err, ok_or}
use bdk_ffi.Prelude.Actions.{Action, ◌>>=◌, ◌>>◌, effect, lift, when, when_some, for_each}
use bdk_ffi.Extern.{Primitives, external, internal}
use bdk_ffi.Errors.CreateTx.{CreateTxError, push_bytes_error, from_create_tx, from_add_utxo}
use bdk_ffi.Types.LockTime.{LockTime, try_from}
use bdk_ffi.Builder.Inner.{BdkTxBuilder}
use bdk_ffi.Builder.Fluent.{TxBuilder}

module _ (P : Primitives) (I : BdkTxBuilder P) where
  abbrev pub Step : Type 0
  Step = Action I.Builder CreateTxError (Unit {0})

  -- `add_utxos(..).map_err(CreateTxError::from)?`
  unfoldable pub select_utxos : List P.OutPoint → Step
  select_utxos utxos b = let (r, b') = I.add_utxos utxos b in (map_err (from_add_utxo P) r, b')

  -- `PushBytesBuf::try_from(..)?` and `add_data`
  unfoldable pub attach_data : List ℕ → Step
  attach_data bytes = do
    push_bytes ← lift (ok_or (P.push_bytes bytes) push_bytes_error)
    effect (I.add_data push_bytes)

  -- `locktime.try_into()?` and `nlocktime`
  unfoldable pub set_locktime : LockTime → Step
  set_locktime locktime = do
    bdk_locktime ← lift (try_from P locktime)
    effect (I.nlocktime bdk_locktime)

  -- The calls after the fees and before the library's own `finish`.
  unfoldable pub after_fees : TxBuilder P → Step
  unfolding attach_data set_locktime
  after_fees b = do
    when b.drain_wallet (effect I.drain_wallet)
    when_some b.drain_to (λ script. effect (I.drain_to script))
    when_some b.sequence (λ sequence. effect (I.set_exact_sequence sequence))
    when (not (is_empty b.payload)) (attach_data b.payload)
    when_some b.current_height (λ height. effect (I.current_height height))
    when_some b.locktime set_locktime
    when b.allow_dust (effect (I.allow_dust b.allow_dust))
    when_some b.version (λ version. effect (I.version version))

  -- The calls before the fees.
  unfoldable pub before_fees : TxBuilder P → Step
  unfolding select_utxos
  before_fees b = do
    when b.add_global_xpubs (effect I.add_global_xpubs)
    for_each (λ (script, amount). effect (I.add_recipient script amount)) b.recipients
    when_some b.external_policy_path (λ path. effect (I.policy_path path external))
    when_some b.internal_policy_path (λ path. effect (I.policy_path path internal))
    effect (I.change_policy b.change_policy)
    when (not (is_empty b.utxos)) (select_utxos b.utxos)
    when (not (is_empty b.unspendable)) (effect (I.unspendable (I.iterate b.unspendable)))
    when b.manually_selected_only (effect I.manually_selected_only)

  -- The calls up to the library's own `finish`.
  unfoldable pub prepare : TxBuilder P → Step
  unfolding before_fees after_fees
  prepare b = do
    before_fees b
    when_some b.fee_rate (λ rate. effect (I.fee_rate rate))
    when_some b.fee_absolute (λ amount. effect (I.fee_absolute amount))
    after_fees b

  -- The library's `finish`, or the end of the borrow after an error.
  unfoldable pub conclude :
      Result (Unit {0}) CreateTxError × I.Builder → Result P.Psbt CreateTxError × P.Wallet
  conclude (err e, s) = (err e, I.release s)
  conclude (ok _, s) = let (r, wallet) = I.finish s in (map_err (from_create_tx P) r, wallet)

  unfoldable pub finish : TxBuilder P → P.Wallet → Result P.Psbt CreateTxError × P.Wallet
  unfolding prepare conclude
  finish b wallet = conclude (prepare b (I.build_tx wallet))
