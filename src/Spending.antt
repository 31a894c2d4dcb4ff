-- ===== src/Spending.antt =====
-- A round of foreign code that spends: it finishes a builder of a payment or of a fee bump, signs the PSBT, extracts the transaction and
-- broadcasts it. The state is the wallet and the PSBTs that are shared.
pub mod Outcome
use bdk_ffi.Prelude.{ℕ, Bool, Option, Result, ok, err, map_ok, map_err}
use bdk_ffi.Prelude.Actions.{Action, ◌>>=◌}
use bdk_ffi.Extern.{Primitives}
use bdk_ffi.Errors.CreateTx.{CreateTxError}
use bdk_ffi.Errors.Electrum.{ElectrumError}
use bdk_ffi.Errors.Esplora.{EsploraError}
use bdk_ffi.Errors.Extract.{ExtractTxError, from_extract_tx}
use bdk_ffi.Errors.Signer.{SignerError, BdkSignerError, from_signer}
use bdk_ffi.Bitcoin.Transaction.{Transaction}
use bdk_ffi.Builder.Fluent.{TxBuilder}
use bdk_ffi.Builder.Inner.{BdkTxBuilder}
use bdk_ffi.Builder.Finish
use bdk_ffi.Builder.BumpFee
use bdk_ffi.Builder.BumpFee.{BumpFeeTxBuilder}
use bdk_ffi.Psbt.Library.{PsbtLibrary}
use bdk_ffi.Psbt.Store.{Store, add}
use bdk_ffi.Psbt.Methods.{SignOptions, Psbts, sign, extract_tx, bdk_sign_options}
use bdk_ffi.Requests.Library.{ScanLibrary}
use bdk_ffi.Views.Library.{HashLibrary}
use bdk_ffi.Clients.Library.{ClientLibrary}
use bdk_ffi.Clients.Electrum
use bdk_ffi.Clients.Esplora

-- The first error ends the round.
pub data SpendError : Type 0 where
  create : CreateTxError → SpendError
  signer : SignerError → SpendError
  extract : ExtractTxError → SpendError
  electrum : ElectrumError → SpendError
  esplora : EsploraError → SpendError

pub data Broadcaster (P : Primitives) (S : ScanLibrary P) : Type 0 where
  electrum : S.ElectrumClient → Broadcaster P S
  esplora : S.EsploraClient → Broadcaster P S

-- What is finished: a payment, or a replacement that pays a higher fee.
pub data Draft (P : Primitives) : Type 0 where
  payment : TxBuilder P → Draft P
  replacement : BumpFeeTxBuilder P → Draft P

module _ (P : Primitives) (I : BdkTxBuilder P) (Q : PsbtLibrary P) (S : ScanLibrary P)
    (H : HashLibrary) (C : ClientLibrary P S H) where
  abbrev pub State : Type 0
  State = P.Wallet × Psbts P Q

  abbrev pub finish : Draft P → P.Wallet → Result P.Psbt CreateTxError × P.Wallet
  finish (payment b) wallet = Finish.finish P I b wallet
  finish (replacement b) wallet = BumpFee.finish P I b wallet

  -- The end of `finish`: the PSBT becomes a shared object.
  abbrev pub shared :
      Result P.Psbt CreateTxError × P.Wallet → Psbts P Q → Result ℕ SpendError × State
  shared (ok psbt, wallet) s = let (h, s') = add psbt s in (ok h, (wallet, s'))
  shared (err e, wallet) s = (err (SpendError.create e), (wallet, s))

  abbrev finished : Draft P → Action State SpendError ℕ
  finished draft (wallet, s) = shared (finish draft wallet) s

  abbrev pub signed : Option SignOptions → ℕ → Action State SpendError Bool
  signed options h (wallet, s) =
      let (r, s') = sign P Q wallet h options s in (map_err SpendError.signer r, (wallet, s'))

  abbrev pub extracted : ℕ → Action State SpendError (Transaction P)
  extracted h (wallet, s) = (map_err SpendError.extract (extract_tx P Q h s), (wallet, s))

  abbrev pub broadcast_by : Broadcaster P S → Transaction P → Result (Unit {0}) SpendError
  broadcast_by (Broadcaster.electrum client) tx =
      map_ok (λ txid. tt)
        (map_err SpendError.electrum (Electrum.transaction_broadcast P S H C client tx))
  broadcast_by (Broadcaster.esplora client) tx =
      map_err SpendError.esplora (Esplora.broadcast P S H C client tx)

  abbrev pub sent : Broadcaster P S → Transaction P → Action State SpendError (Unit {0})
  sent client tx (wallet, s) = (broadcast_by client tx, (wallet, s))

  pub spend : Draft P → Option SignOptions → Broadcaster P S → Action State SpendError (Unit {0})
  spend draft options client = finished draft >>= λ h.
      (signed options h >>= λ complete. extracted h >>= λ tx. sent client tx)

  -- The same without shared objects, on the PSBT itself: what is left of the round at each step.
  abbrev pub then_send :
      Broadcaster P S → Result (Transaction P) ExtractTxError → Result (Unit {0}) SpendError
  then_send client (ok tx) = broadcast_by client tx
  then_send client (err e) = err (SpendError.extract e)

  abbrev pub then_extract :
      Broadcaster P S
      → Result Bool (BdkSignerError P.Payload) × P.Psbt
      → Result (Unit {0}) SpendError
  then_extract client (ok complete, psbt) =
      then_send client (map_err (from_extract_tx P Q.to_sat_per_vb_ceil) (Q.extract_tx psbt))
  then_extract client (err e, psbt) = err (SpendError.signer (from_signer P e))

  abbrev pub then_sign :
      Option SignOptions
      → Broadcaster P S
      → Result P.Psbt CreateTxError × P.Wallet
      → Result (Unit {0}) SpendError × P.Wallet
  then_sign options client (ok psbt, wallet) =
      (then_extract client (Q.sign wallet psbt (bdk_sign_options P Q options)), wallet)
  then_sign options client (err e, wallet) = (err (SpendError.create e), wallet)
