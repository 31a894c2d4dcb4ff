-- ===== src/Builder/BumpOutcome.antt =====
-- How `BumpFeeTxBuilder::finish` can end.
use bdk_ffi.Prelude.{
  Option, none, some, ◌≡◌, refl, sym, Option-cases, Result, ok, ap, err, map_err, Result-cases, inl,
  inr,
}
use bdk_ffi.Extern.{Primitives}
use bdk_ffi.Errors.CreateTx.{CreateTxError, BuildFeeBumpError, from_create_tx, from_build_fee_bump}
use bdk_ffi.Builder.Inner.{BdkTxBuilder}
use bdk_ffi.Builder.Finish.{conclude}
use bdk_ffi.Builder.BumpFee.{BumpFeeTxBuilder, prepare, after_bump, finish}
use bdk_ffi.Builder.Verdict.{
  locktime_error, Follows, locktime-Follows, then-Follows, when-Total, when_some-Total, then-Total,
}

module _ (P : Primitives) (I : BdkTxBuilder P) where
  prepare-Follows :
      (b : BumpFeeTxBuilder P) (s : I.Builder)
      → Follows P I (locktime_error P b.locktime) (prepare P I b s)
  unfolding prepare
  prepare-Follows b =
      then-Follows P I none _ _ _ (λ s. (I.fee_rate b.fee_rate s, refl))
        (then-Follows P I none _ _ _ (when_some-Total P I b.sequence I.set_exact_sequence) (
          then-Follows P I none _ _ _ (when_some-Total P I b.current_height I.current_height) (
            then-Total P I (locktime_error P b.locktime) _ _ (locktime-Follows P I b.locktime) (
              then-Total P I none _ _ (when-Total P I b.allow_dust (I.allow_dust b.allow_dust))
                (when_some-Total P I b.version I.version)))))

  -- The ways in which `finish` ends: the text is no transaction id, and the wallet is left alone; the
  -- library will not replace the transaction; the lock time is out of range; or the library's own
  -- `finish` decides.
  pub data Ends (b : BumpFeeTxBuilder P) (wallet : P.Wallet)
      (r : Result P.Psbt CreateTxError × P.Wallet) : Type 0 where
    no_txid :
        P.parse_txid b.txid ≡ none
        → r ≡ (err (CreateTxError.unknown_utxo b.txid), wallet)
        → Ends b wallet r
    not_replaced :
        (txid : P.Txid) (e : BuildFeeBumpError P) (after : P.Wallet)
        → P.parse_txid b.txid ≡ some txid
        → I.build_fee_bump txid wallet ≡ err (e, after)
        → r ≡ (err (from_build_fee_bump P e), after)
        → Ends b wallet r
    refused :
        (txid : P.Txid) (e : CreateTxError) (start s : I.Builder)
        → P.parse_txid b.txid ≡ some txid
        → I.build_fee_bump txid wallet ≡ ok start
        → locktime_error P b.locktime ≡ some e
        → prepare P I b start ≡ (err e, s)
        → r ≡ (err e, I.release s)
        → Ends b wallet r
    finished :
        (txid : P.Txid) (start s : I.Builder)
        → P.parse_txid b.txid ≡ some txid
        → I.build_fee_bump txid wallet ≡ ok start
        → locktime_error P b.locktime ≡ none
        → prepare P I b start ≡ (ok tt, s)
        → r ≡ (map_err (from_create_tx P) (I.finish s).0, (I.finish s).1)
        → Ends b wallet r

  Follows-Ends :
      (b : BumpFeeTxBuilder P) (wallet : P.Wallet) (txid : P.Txid) (start : I.Builder)
      (v : Option CreateTxError)
      → P.parse_txid b.txid ≡ some txid
      → I.build_fee_bump txid wallet ≡ ok start
      → v ≡ locktime_error P b.locktime
      → Follows P I v (prepare P I b start)
      → Ends b wallet (conclude P I (prepare P I b start))
  unfolding conclude
  Follows-Ends b wallet txid start none parsed bumped h (s, e) =
      finished txid start s parsed bumped (sym h) e (ap (conclude P I) e)
  Follows-Ends b wallet txid start (some error) parsed bumped h (s, e) =
      refused txid error start s parsed bumped (sym h) e (ap (conclude P I) e)

  -- The `finish` of a fee bump always ends in one of four ways: the text is no transaction id, and
  -- the wallet is left alone; the library will not replace the transaction, with the converted
  -- error; the lock time is out of range, with the bindings' own error; or the library's own
  -- `finish` is called on the builder that all calls were made on, and its result, with the error
  -- converted, and its wallet come back.
  pub bump_finish-Ends :
      (b : BumpFeeTxBuilder P) (wallet : P.Wallet) → Ends b wallet (finish P I b wallet)
  unfolding finish after_bump
  bump_finish-Ends b wallet = elim (Option-cases (P.parse_txid b.txid)) [
    | inl e ↦ no_txid e (rw (e, finish))
    | inr (txid, e) ↦ elim (Result-cases (I.build_fee_bump txid wallet)) [
      | inl (s, h) ↦
          rw (e, finish, h) (Follows-Ends b wallet txid s _ e h refl (prepare-Follows b s))
      | inr ((error, after), h) ↦ not_replaced txid error after e h (rw (e, finish, h))
    ]
  ]
