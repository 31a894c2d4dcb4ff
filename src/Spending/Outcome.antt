-- ===== src/Spending/Outcome.antt =====
-- What a round that spends comes to.
use mathlib.Core.Path.{subst}
use bdk_ffi.Prelude.{ℕ, ◌<◌, Bool, Option, Result, ok, err, map_err, ◌≡◌, ◌≢◌, refl, ◌∙◌, arith}
use bdk_ffi.Prelude.Actions.{resume}
use bdk_ffi.Extern.{Primitives}
use bdk_ffi.Errors.CreateTx.{CreateTxError}
use bdk_ffi.Errors.Extract.{ExtractTxError, from_extract_tx}
use bdk_ffi.Errors.Signer.{BdkSignerError, from_signer}
use bdk_ffi.Bitcoin.Transaction.{Transaction}
use bdk_ffi.Builder.Inner.{BdkTxBuilder}
use bdk_ffi.Psbt.Library.{PsbtLibrary}
use bdk_ffi.Psbt.Store.{add, put, put_same, put_other, add_new, add_old}
use bdk_ffi.Psbt.Methods.{SignOptions, Psbts, sign, extract_tx, bdk_sign_options}
use bdk_ffi.Requests.Library.{ScanLibrary}
use bdk_ffi.Views.Library.{HashLibrary}
use bdk_ffi.Clients.Library.{ClientLibrary}
use bdk_ffi.Spending.{
  SpendError, Broadcaster, Draft, State, finish, shared, signed, extracted, sent, spend, then_send,
  then_extract, then_sign,
}

module _ (P : Primitives) (I : BdkTxBuilder P) (Q : PsbtLibrary P) (S : ScanLibrary P)
    (H : HashLibrary) (C : ClientLibrary P S H) where
  -- The result and the wallet of a round, and a PSBT that it leaves alone.
  abbrev pub Comes :
      Result (Unit {0}) SpendError × State P I Q S H C
      → Psbts P Q
      → Result (Unit {0}) SpendError × P.Wallet
      → Type 0
  Comes (r, (wallet, s')) s expected =
      ((r, wallet) ≡ expected) × ((k : ℕ) → k < s.next → s'.content k ≡ s.content k)

  sent-Comes :
      (client : Broadcaster P S) (r : Result (Transaction P) ExtractTxError) (wallet : P.Wallet)
      (s s0 : Psbts P Q)
      → ((k : ℕ) → k < s0.next → s.content k ≡ s0.content k)
      → Comes
          (resume (sent P I Q S H C client) (map_err SpendError.extract r, (wallet, s)))
          s0
          (then_send P I Q S H C client r, wallet)
  sent-Comes client (ok tx) wallet s s0 kept = (refl, kept)
  sent-Comes client (err e) wallet s s0 kept = (refl, kept)

  extracted-Comes :
      (client : Broadcaster P S) (h : ℕ) (wallet : P.Wallet) (psbt : P.Psbt) (s s0 : Psbts P Q)
      → s.content h ≡ psbt
      → ((k : ℕ) → k < s0.next → s.content k ≡ s0.content k)
      → Comes (resume (sent P I Q S H C client) (extracted P I Q S H C h (wallet, s))) s0 (
        then_send P I Q S H C client
            (map_err (from_extract_tx P Q.to_sat_per_vb_ceil) (Q.extract_tx psbt)),
        wallet,
      )
  unfolding extract_tx
  extracted-Comes client h wallet psbt s s0 there kept =
      rw (← there) (sent-Comes client _ wallet s s0 kept)

  signed-Comes :
      (client : Broadcaster P S) (h : ℕ) (wallet : P.Wallet)
      (r : Result Bool (BdkSignerError P.Payload) × P.Psbt) (s s0 : Psbts P Q)
      → ((k : ℕ) → k < s0.next → h ≢ k)
      → ((k : ℕ) → k < s0.next → s.content k ≡ s0.content k)
      → Comes
          (resume
            (λ (complete : Bool) state.
              resume (sent P I Q S H C client) (extracted P I Q S H C h state))
            (map_err SpendError.signer (map_err (from_signer P) r.0), (wallet, put h r.1 s)))
          s0
          (then_extract P I Q S H C client r, wallet)
  signed-Comes client h wallet (ok complete, psbt) s s0 fresh kept =
      extracted-Comes client h wallet psbt (put h psbt s) s0 (put_same h psbt s)
        (λ k below. put_other h k psbt s (fresh k below) ∙ kept k below)
  signed-Comes client h wallet (err e, psbt) s s0 fresh kept =
      (refl, λ k below. put_other h k psbt s (fresh k below) ∙ kept k below)

  shared-Comes :
      (options : Option SignOptions) (client : Broadcaster P S)
      (r : Result P.Psbt CreateTxError × P.Wallet) (s : Psbts P Q)
      → Comes
          (resume
            (λ h state.
              resume
                (λ (complete : Bool) state'.
                  resume (sent P I Q S H C client) (extracted P I Q S H C h state'))
                (signed P I Q S H C options h state))
            (shared P I Q S H C r s))
          s
          (then_sign P I Q S H C options client r)
  unfolding sign add
  shared-Comes options client (ok psbt, wallet) s =
      subst
        (λ p.
          Comes
            (resume
              (λ (complete : Bool) state.
                resume (sent P I Q S H C client) (extracted P I Q S H C s.next state))
              (signed P I Q S H C options s.next (wallet, (add psbt s).1)))
            s
            (
              then_extract P I Q S H C client (Q.sign wallet p (bdk_sign_options P Q options)),
              wallet,
            ))
        (add_new psbt s)
        (signed-Comes client s.next wallet _ (add psbt s).1 s (λ k below same. omega arith)
          (λ k below. add_old psbt k s below))
  shared-Comes options client (err e, wallet) s = (refl, λ k below. refl)

  -- A round that finishes a `TxBuilder` or a `BumpFeeTxBuilder`, signs the PSBT as a shared object,
  -- extracts the transaction and broadcasts it with either client, has the result and the wallet of
  -- these steps without shared objects: what is sent is extracted from the PSBT that `finish` gave
  -- as the library has signed it, and the first error ends the round. The PSBTs that were shared
  -- before stay as they were.
  pub spend-Comes :
      (draft : Draft P) (options : Option SignOptions) (client : Broadcaster P S)
      (wallet : P.Wallet) (s : Psbts P Q)
      → Comes
          (spend P I Q S H C draft options client (wallet, s))
          s
          (then_sign P I Q S H C options client (finish P I Q S H C draft wallet))
  unfolding spend
  spend-Comes draft options client wallet s =
      shared-Comes options client (finish P I Q S H C draft wallet) s
