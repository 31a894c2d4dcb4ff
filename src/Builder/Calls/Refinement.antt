-- ===== src/Builder/Calls/Refinement.antt =====
-- The two `finish` functions make exactly the calls that the fields ask for, in a fixed order.
use bdk_ffi.Prelude.{Bool, true, false, List, [], ◌∷◌, map, ◌≡◌, refl, ap, is_empty, not, ok}
use bdk_ffi.Prelude.Actions.{effect, when, for_each}
use bdk_ffi.Extern.{Primitives, external, internal}
use bdk_ffi.Builder.Inner.{BdkTxBuilder}
use bdk_ffi.Builder.Fluent.{TxBuilder}
use bdk_ffi.Builder.BumpFee.{BumpFeeTxBuilder}
use bdk_ffi.Builder.BumpFee
use bdk_ffi.Builder.Finish.{before_fees, after_fees, prepare, conclude, finish}
use bdk_ffi.Builder.Calls

module _ (P : Primitives) (I : BdkTxBuilder P) where
  recipients-Makes :
      (recipients : List (P.Script × P.Amount))
      → Calls.Makes P I
          (for_each (λ (script, amount). effect (I.add_recipient script amount)) recipients)
          (map Calls.add_recipient recipients)
  unfolding for_each
  recipients-Makes [] s = refl
  recipients-Makes ((script, amount) ∷ rest) s = recipients-Makes rest _

  dust-Makes :
      (allow : Bool)
      → Calls.Makes P I
          (when allow (effect (I.allow_dust allow)))
          (Calls.only_if P allow (Calls.allow_dust true))
  dust-Makes true s = Calls.one-Makes P I (Calls.allow_dust true) s
  dust-Makes false s = Calls.when-Makes P I false (Calls.allow_dust true) s

  bump-Makes :
      (b : BumpFeeTxBuilder P) → Calls.Makes P I (BumpFee.prepare P I b) (Calls.bump_calls P b)
  unfolding BumpFee.prepare
  bump-Makes b = Calls.then-Makes P I _ _ _ _ (Calls.one-Makes P I (Calls.fee_rate b.fee_rate)) (
      Calls.then-Makes P I _ _ _ _ (Calls.when_some-Makes P I b.sequence Calls.set_exact_sequence) (
        Calls.then-Makes P I _ _ _ _
          (Calls.when_some-Makes P I b.current_height Calls.current_height)
          (Calls.then-Makes P I _ _ _ _ (Calls.when_some-Makes P I b.locktime Calls.nlocktime) (
            Calls.then-Makes P I _ _ _ _ (dust-Makes b.allow_dust)
              (Calls.when_some-Makes P I b.version Calls.version)))))

  after_fees-Makes : (b : TxBuilder P) → Calls.Makes P I (after_fees P I b) (Calls.after_fees P b)
  unfolding after_fees
  after_fees-Makes b =
      (Calls.then-Makes P I _ _ _ _ (Calls.when-Makes P I b.drain_wallet Calls.drain_wallet) (
        Calls.then-Makes P I _ _ _ _ (Calls.when_some-Makes P I b.drain_to Calls.drain_to) (
          Calls.then-Makes P I _ _ _ _
            (Calls.when_some-Makes P I b.sequence Calls.set_exact_sequence)
            (Calls.then-Makes P I _ _ _ _
              (Calls.when-Makes P I (not (is_empty b.payload)) (Calls.add_data b.payload))
              (Calls.then-Makes P I _ _ _ _
                (Calls.when_some-Makes P I b.current_height Calls.current_height)
                (Calls.then-Makes P I _ _ _ _ (Calls.when_some-Makes P I b.locktime Calls.nlocktime)
                  (Calls.then-Makes P I _ _ _ _ (dust-Makes b.allow_dust)
                    (Calls.when_some-Makes P I b.version Calls.version))))))))

  before_fees-Makes :
      (b : TxBuilder P) → Calls.Makes P I (before_fees P I b) (Calls.before_fees P I.iterate b)
  unfolding before_fees
  before_fees-Makes b =
      (Calls.then-Makes P I _ _ _ _ (Calls.when-Makes P I b.add_global_xpubs Calls.add_global_xpubs)
        (Calls.then-Makes P I _ _ _ _ (recipients-Makes b.recipients) (
          Calls.then-Makes P I _ _ _ _
            (Calls.when_some-Makes P I b.external_policy_path (Calls.policy_path external))
            (Calls.then-Makes P I _ _ _ _
              (Calls.when_some-Makes P I b.internal_policy_path (Calls.policy_path internal))
              (Calls.then-Makes P I _ _ _ _
                (Calls.one-Makes P I (Calls.change_policy b.change_policy))
                (Calls.then-Makes P I _ _ _ _
                  (Calls.when-Makes P I (not (is_empty b.utxos)) (Calls.add_utxos b.utxos))
                  (Calls.then-Makes P I _ _ _ _
                    (Calls.when-Makes P I (not (is_empty b.unspendable))
                      (Calls.unspendable (I.iterate b.unspendable)))
                    (Calls.when-Makes P I b.manually_selected_only
                      Calls.manually_selected_only))))))))

  prepare-Makes : (b : TxBuilder P) → Calls.Makes P I (prepare P I b) (Calls.calls P I.iterate b)
  unfolding prepare
  prepare-Makes b =
      (Calls.then-Makes P I _ _ _ _ (before_fees-Makes b) (
        Calls.then-Makes P I _ _ _ _ (Calls.when_some-Makes P I b.fee_rate Calls.fee_rate) (
          Calls.then-Makes P I _ _ _ _ (Calls.when_some-Makes P I b.fee_absolute Calls.fee_absolute)
            (after_fees-Makes b))))

  -- `TxBuilder::finish` makes on the library's builder the calls that `calls` lists from the fields
  -- alone, in that order, up to the first one that fails; it then lets the library finish, or gives
  -- the wallet back with the error.
  pub finish-calls :
      (b : TxBuilder P) (wallet : P.Wallet)
      → finish P I b wallet
        ≡ conclude P I (Calls.perform_all P I (Calls.calls P I.iterate b) (I.build_tx wallet))
  unfolding finish
  finish-calls b wallet = ap (conclude P I) (prepare-Makes b (I.build_tx wallet))

  -- Once the library has started a fee bump, `BumpFeeTxBuilder::finish` makes the calls that
  -- `bump_calls` lists from the fields alone, in that order, up to the first one that fails; it
  -- then lets the library finish, or gives the wallet back with the error.
  pub finish-bump_calls :
      (b : BumpFeeTxBuilder P) (s : I.Builder)
      → BumpFee.after_bump P I b (ok s)
        ≡ conclude P I (Calls.perform_all P I (Calls.bump_calls P b) s)
  unfolding BumpFee.after_bump
  finish-bump_calls b s = ap (conclude P I) (bump-Makes b s)
