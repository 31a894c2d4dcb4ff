-- ===== src/Bitcoin/Transaction.antt =====
-- `Transaction`, `TxIn` and `TxOut` of bdk-ffi/src/bitcoin.rs. `Transaction` wraps the library's transaction, and is what
-- it wraps, so the conversions between the two leave no trace.
pub mod Decoding
use bdk_ffi.Prelude.{ℕ, Bool, String, List, map, cast, Result, ok, err, map_ok, map_err}
use bdk_ffi.Extern.{Primitives}
use bdk_ffi.Errors.Transaction.{TransactionError, from_encode}
use bdk_ffi.Bitcoin.Library.{BitcoinLibrary, BdkTxIn, BdkTxOut, BdkTransaction}

module _ (P : Primitives) where
  abbrev pub Transaction : Type 0
  Transaction = BdkTransaction P

  pub record TxIn : Type 0 where
    pub previous_output : P.OutPoint
    pub script_sig : P.Script
    pub sequence : ℕ
    pub witness : List (List ℕ)

  pub record TxOut : Type 0 where
    pub value : ℕ
    pub script_pubkey : P.Script

  -- `impl From<&BdkTxIn> for TxIn`
  unfoldable pub from_tx_in : BdkTxIn P → TxIn
  from_tx_in tx_in = record {
    previous_output = tx_in.previous_output;
    script_sig = tx_in.script_sig;
    sequence = tx_in.sequence;
    witness = tx_in.witness;
  }

module _ (P : Primitives) (L : BitcoinLibrary P) where
  -- `impl From<&BdkTxOut> for TxOut`
  unfoldable pub from_tx_out : BdkTxOut P → TxOut P
  from_tx_out tx_out = record {
    value = L.to_sat tx_out.value;
    script_pubkey = tx_out.script_pubkey;
  }

  -- `Transaction::new`: what is left of the bytes after the transaction is dropped with the cursor.
  unfoldable pub new : List ℕ → Result (Transaction P) TransactionError
  new transaction_bytes =
      map_ok (λ decoded. decoded.0) (map_err (from_encode P) (L.consensus_decode transaction_bytes))

  unfoldable pub serialize : Transaction P → List ℕ
  serialize tx = L.serialize tx

  unfoldable pub compute_txid : Transaction P → String
  compute_txid tx = P.txid_string (L.compute_txid tx)

  unfoldable pub weight : Transaction P → ℕ
  weight tx = L.weight tx

  unfoldable pub total_size : Transaction P → ℕ
  total_size tx = cast 64 (L.total_size tx)

  unfoldable pub vsize : Transaction P → ℕ
  vsize tx = cast 64 (L.vsize tx)

  unfoldable pub is_coinbase : Transaction P → Bool
  is_coinbase tx = L.is_coinbase tx

  unfoldable pub is_explicitly_rbf : Transaction P → Bool
  is_explicitly_rbf tx = L.is_explicitly_rbf tx

  unfoldable pub is_lock_time_enabled : Transaction P → Bool
  is_lock_time_enabled tx = L.is_lock_time_enabled tx

  unfoldable pub version : Transaction P → ℕ
  version tx = tx.version

  unfoldable pub lock_time : Transaction P → ℕ
  lock_time tx = L.lock_time_to_consensus_u32 tx.lock_time

  unfoldable pub input : Transaction P → List (TxIn P)
  unfolding from_tx_in
  input tx = map (from_tx_in P) tx.input

  unfoldable pub output : Transaction P → List (TxOut P)
  unfolding from_tx_out
  output tx = map from_tx_out tx.output
