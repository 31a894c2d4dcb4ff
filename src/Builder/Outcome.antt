-- ===== src/Builder/Outcome.antt =====
-- How `TxBuilder::finish` can end.
use bdk_ffi.Prelude.{
  false, not, List, [], ◌∷◌, Option, none, some, ◌≡◌, refl, ◌⊎◌, inl, inr, sym, is_empty, Result,
  ok, err, map_err, Result-cases, ap,
}
use bdk_ffi.Prelude.Actions.{◌>>◌, effect, when, when_some}
use bdk_ffi.Extern.{Primitives, external, internal}
use bdk_ffi.Errors.CreateTx.{CreateTxError, AddUtxoError, from_create_tx, from_add_utxo}
use bdk_ffi.Builder.Inner.{BdkTxBuilder}
use bdk_ffi.Builder.Fluent.{TxBuilder}
use bdk_ffi.Builder.Finish.{Step, select_utxos, before_fees, after_fees, prepare, conclude, finish}
use bdk_ffi.Builder.Verdict.{
  data_error, locktime_error, refusal, Follows, data-Follows, locktime-Follows, then-Follows, Total,
  when-Total, when_some-Total, recipients-Total, then-Total,
}

module _ (P : Primitives) (I : BdkTxBuilder P) where
  after_fees-Follows :
      (b : TxBuilder P) (s : I.Builder) → Follows P I (refusal P b) (after_fees P I b s)
  unfolding after_fees
  after_fees-Follows b =
      then-Follows P I none _ _ _ (when-Total P I b.drain_wallet I.drain_wallet) (
        then-Follows P I none _ _ _ (when_some-Total P I b.drain_to I.drain_to) (
          then-Follows P I none _ _ _ (when_some-Total P I b.sequence I.set_exact_sequence) (
            then-Follows P I (data_error P b.payload) _ _ _ (data-Follows P I b.payload) (
              then-Follows P I none _ _ _ (when_some-Total P I b.current_height I.current_height) (
                then-Total P I (locktime_error P b.locktime) _ _ (locktime-Follows P I b.locktime) (
                  then-Total P I none _ _ (when-Total P I b.allow_dust (I.allow_dust b.allow_dust))
                    (when_some-Total P I b.version I.version)))))))

  -- How the calls before the library's own `finish` end: the library refuses the UTXOs that were asked for; the
  -- bindings refuse the data or the lock time; or all calls are made.
  data Prepared (b : TxBuilder P) (r : Result (Unit {0}) CreateTxError × I.Builder) : Type 0 where
    rejected :
        (e : AddUtxoError P) (before s : I.Builder)
        → is_empty b.utxos ≡ false
        → I.add_utxos b.utxos before ≡ (err e, s)
        → r ≡ (err (from_add_utxo P e), s)
        → Prepared b r
    refuses :
        (e : CreateTxError) (s : I.Builder) → refusal P b ≡ some e → r ≡ (err e, s) → Prepared b r
    ready : (s : I.Builder) → refusal P b ≡ none → r ≡ (ok tt, s) → Prepared b r

  -- The ways in which `finish` ends, with the calls that lead there. The library may refuse a UTXO that was asked for;
  -- the bindings may refuse the data or the lock time; or the library's own `finish` decides.
  pub data Ends (b : TxBuilder P) (wallet : P.Wallet) (r : Result P.Psbt CreateTxError × P.Wallet)
      : Type 0 where
    utxo_rejected :
        (e : AddUtxoError P) (before s : I.Builder)
        → is_empty b.utxos ≡ false
        → I.add_utxos b.utxos before ≡ (err e, s)
        → prepare P I b (I.build_tx wallet) ≡ (err (from_add_utxo P e), s)
        → r ≡ (err (from_add_utxo P e), I.release s)
        → Ends b wallet r
    refused :
        (e : CreateTxError) (s : I.Builder)
        → refusal P b ≡ some e
        → prepare P I b (I.build_tx wallet) ≡ (err e, s)
        → r ≡ (err e, I.release s)
        → Ends b wallet r
    finished :
        (s : I.Builder)
        → refusal P b ≡ none
        → prepare P I b (I.build_tx wallet) ≡ (ok tt, s)
        → r ≡ (map_err (from_create_tx P) (I.finish s).0, (I.finish s).1)
        → Ends b wallet r

  Follows-Prepared :
      (b : TxBuilder P) (r : Result (Unit {0}) CreateTxError × I.Builder) (v : Option CreateTxError)
      → v ≡ refusal P b
      → Follows P I v r
      → Prepared b r
  Follows-Prepared b r none h (s, e) = ready s (sym h) e
  Follows-Prepared b r (some error) h (s, e) = refuses error s (sym h) e

  -- What the calls before the fees come to: the library may refuse a UTXO.
  abbrev Selects : List P.OutPoint → Result (Unit {0}) CreateTxError × I.Builder → Type 0
  Selects utxos r =
      Follows P I none r
      ⊎ ((e : AddUtxoError P) × (before s : I.Builder) × (is_empty utxos ≡ false)
          × (I.add_utxos utxos before ≡ (err e, s))
          × (r ≡ (err (from_add_utxo P e), s)))

  skip-Selects :
      (utxos : List P.OutPoint) (m k : Step P I)
      → Total P I m
      → ((s : I.Builder) → Selects utxos (k s))
      → (s : I.Builder) → Selects utxos ((m >> k) s)
  skip-Selects utxos m k hm hk s = rw (hm s).1 (hk (hm s).0)

  Selects-then :
      (utxos : List P.OutPoint) (m k : Step P I)
      → ((s : I.Builder) → Selects utxos (m s))
      → Total P I k
      → (s : I.Builder) → Selects utxos ((m >> k) s)
  Selects-then utxos m k hm hk s = elim (hm s) [
    | inl (s', e) ↦ rw e (inl (hk s'))
    | inr (error, before, s', some_utxos, h, e) ↦
        rw e (inr (error, before, s', some_utxos, h, refl))
  ]

  utxos-Selects :
      (utxos : List P.OutPoint) (s : I.Builder)
      → Selects utxos (when (not (is_empty utxos)) (select_utxos P I utxos) s)
  unfolding select_utxos
  utxos-Selects [] s = inl (s, refl)
  utxos-Selects (x ∷ xs) s = elim (Result-cases (I.add_utxos (x ∷ xs) s).0) [
    | inl (_, e) ↦ rw e (inl (_, refl))
    | inr (error, e) ↦
        let after = (I.add_utxos (x ∷ xs) s).1 in
        rw e (inr (error, s, after, refl, ap (λ r. (r, after)) e, refl))
  ]

  before_fees-Selects : (b : TxBuilder P) (s : I.Builder) → Selects b.utxos (before_fees P I b s)
  unfolding before_fees
  before_fees-Selects b =
      skip-Selects b.utxos _ _ (when-Total P I b.add_global_xpubs I.add_global_xpubs) (
        skip-Selects b.utxos _ _ (recipients-Total P I b.recipients) (
          skip-Selects b.utxos _ _
            (when_some-Total P I b.external_policy_path (λ path. I.policy_path path external))
            (skip-Selects b.utxos _ _
              (when_some-Total P I b.internal_policy_path (λ path. I.policy_path path internal))
              (skip-Selects b.utxos _ _ (λ s'. (I.change_policy b.change_policy s', refl))
                (Selects-then b.utxos _ _ (utxos-Selects b.utxos) (
                  then-Total P I none _ _
                    (when-Total P I (not (is_empty b.unspendable))
                      (I.unspendable (I.iterate b.unspendable)))
                    (when-Total P I b.manually_selected_only I.manually_selected_only)))))))

  fees-Follows :
      (b : TxBuilder P) (s : I.Builder)
      → Follows P I (refusal P b) (
          (when_some b.fee_rate (λ rate. effect (I.fee_rate rate))
              >> (when_some b.fee_absolute (λ amount. effect (I.fee_absolute amount))
                  >> after_fees P I b))
            s)
  fees-Follows b = then-Follows P I none _ _ _ (when_some-Total P I b.fee_rate I.fee_rate) (
      then-Follows P I none _ _ _ (when_some-Total P I b.fee_absolute I.fee_absolute)
        (after_fees-Follows b))

  prepare-Prepared : (b : TxBuilder P) (s : I.Builder) → Prepared b (prepare P I b s)
  unfolding prepare
  prepare-Prepared b s = elim (before_fees-Selects b s) [
    | inl (s', e) ↦ rw e (Follows-Prepared b _ (refusal P b) refl (fees-Follows b s'))
    | inr (error, before, s', some_utxos, h, e) ↦ rw e (rejected error before s' some_utxos h refl)
  ]

  -- `finish` always ends in one of three ways. Some UTXOs are asked for and the library refuses
  -- them: the error is the converted one. Or the data does not fit a push or the lock time is out
  -- of range, the data being looked at first: the error is the bindings' own. In both cases the
  -- wallet is as the library's builder leaves it. Or neither the data nor the lock time is refused:
  -- the library's own `finish` is called on the builder that all calls were made on, and its
  -- result, with the error converted, and its wallet come back.
  pub finish-Ends : (b : TxBuilder P) (wallet : P.Wallet) → Ends b wallet (finish P I b wallet)
  unfolding finish conclude
  finish-Ends b wallet = elim (prepare-Prepared b (I.build_tx wallet)) [
    | rejected e before s some_utxos h same ↦
        utxo_rejected e before s some_utxos h same (ap (conclude P I) same)
    | refuses e s h same ↦ refused e s h same (ap (conclude P I) same)
    | ready s h same ↦ finished s h same (ap (conclude P I) same)
  ]
