-- ===== src/Views/Records.antt =====
-- `ChainPosition`, `CanonicalTx`, `AddressInfo`, `Balance`, `LocalOutput`, `TxStatus` and `Tx` of bdk-ffi/src/types.rs,
-- with the records inside them and their conversions. An outpoint of the bindings has the two fields of the library's,
-- and is the library's here.
use mathlib.Core.Option
use bdk_ffi.Prelude.{ℕ, Bool, String, Option, cast}
use bdk_ffi.Extern.{Primitives, KeychainKind}
use bdk_ffi.Bitcoin.Library.{BitcoinLibrary}
use bdk_ffi.Bitcoin.Transaction.{Transaction, TxOut, from_tx_out}
use bdk_ffi.Views.Library.{
  HashLibrary, BdkChainPosition, BdkCanonicalTx, BdkAddressInfo, BdkBalance, BdkLocalOutput,
  BdkTxStatus, BdkTx,
}

pub record BlockId : Type 0 where
  pub height : ℕ
  pub hash : String

pub record ConfirmationBlockTime : Type 0 where
  pub block_id : BlockId
  pub confirmation_time : ℕ

pub data ChainPosition : Type 0 where
  confirmed : ConfirmationBlockTime → Option String → ChainPosition
  unconfirmed : Option ℕ → ChainPosition

pub record KeychainAndIndex : Type 0 where
  pub keychain : KeychainKind
  pub index : ℕ

pub record TxStatus : Type 0 where
  pub confirmed : Bool
  pub block_height : Option ℕ
  pub block_hash : Option String
  pub block_time : Option ℕ

pub record Tx : Type 0 where
  pub txid : String
  pub version : ℕ
  pub locktime : ℕ
  pub size : ℕ
  pub weight : ℕ
  pub fee : ℕ
  pub status : TxStatus

module _ (P : Primitives) where
  pub record CanonicalTx : Type 0 where
    pub transaction : Transaction P
    pub chain_position : ChainPosition

  pub record Balance : Type 0 where
    pub immature : P.Amount
    pub trusted_pending : P.Amount
    pub untrusted_pending : P.Amount
    pub confirmed : P.Amount
    pub trusted_spendable : P.Amount
    pub total : P.Amount

  pub record SentAndReceivedValues : Type 0 where
    pub sent : P.Amount
    pub received : P.Amount

  pub record LocalOutput : Type 0 where
    pub outpoint : P.OutPoint
    pub txout : TxOut P
    pub keychain : KeychainKind
    pub is_spent : Bool
    pub derivation_index : ℕ
    pub chain_position : ChainPosition

  -- `impl From<BdkBalance> for Balance`, over the library's two sums.
  unfoldable pub from_balance :
      (trusted_spendable total : BdkBalance P → P.Amount) → BdkBalance P → Balance
  from_balance trusted_spendable total bdk_balance = record {
    immature = bdk_balance.immature;
    trusted_pending = bdk_balance.trusted_pending;
    untrusted_pending = bdk_balance.untrusted_pending;
    confirmed = bdk_balance.confirmed;
    trusted_spendable = trusted_spendable bdk_balance;
    total = total bdk_balance;
  }

module _ (P : Primitives) (H : HashLibrary) where
  -- `impl From<BdkChainPosition<BdkConfirmationBlockTime>> for ChainPosition`
  unfoldable pub from_chain_position : BdkChainPosition P H → ChainPosition
  from_chain_position (BdkChainPosition.confirmed anchor transitively) =
      ChainPosition.confirmed
        record {
          block_id = record {
            height = anchor.block_id.height;
            hash = H.block_hash_string anchor.block_id.hash;
          };
          confirmation_time = anchor.confirmation_time;
        }
        (Option.map P.txid_string transitively)
  from_chain_position (BdkChainPosition.unconfirmed last_seen) = ChainPosition.unconfirmed last_seen

  -- `impl From<BdkCanonicalTx<'_, Arc<BdkTransaction>, BdkConfirmationBlockTime>> for CanonicalTx`
  unfoldable pub from_canonical_tx : BdkCanonicalTx P H → CanonicalTx P
  unfolding from_chain_position
  from_canonical_tx tx = record {
    transaction = tx.tx;
    chain_position = from_chain_position tx.chain_position;
  }

  -- `impl From<BdkTxStatus> for TxStatus`
  unfoldable pub from_tx_status : BdkTxStatus H → TxStatus
  from_tx_status status = record {
    confirmed = status.confirmed;
    block_height = status.block_height;
    block_hash = Option.map H.block_hash_string status.block_hash;
    block_time = status.block_time;
  }

  -- `impl From<BdkTx> for Tx`
  unfoldable pub from_tx : BdkTx P H → Tx
  unfolding from_tx_status
  from_tx tx = record {
    txid = P.txid_string tx.txid;
    version = tx.version;
    locktime = tx.locktime;
    size = cast 64 tx.size;
    weight = tx.weight;
    fee = tx.fee;
    status = from_tx_status tx.status;
  }

module _ (P : Primitives) (L : BitcoinLibrary P) where
  pub record AddressInfo : Type 0 where
    pub index : ℕ
    pub address : L.Address
    pub keychain : KeychainKind

  -- `impl From<BdkAddressInfo> for AddressInfo`
  unfoldable pub from_address_info : BdkAddressInfo P L → AddressInfo
  from_address_info address_info = record {
    index = address_info.index;
    address = address_info.address;
    keychain = address_info.keychain;
  }

  -- `impl From<BdkLocalOutput> for LocalOutput`
  unfoldable pub from_local_output : (H : HashLibrary) → BdkLocalOutput P H → LocalOutput P
  unfolding from_tx_out from_chain_position
  from_local_output H local_utxo = record {
    outpoint = local_utxo.outpoint;
    txout = from_tx_out P L local_utxo.txout;
    keychain = local_utxo.keychain;
    is_spent = local_utxo.is_spent;
    derivation_index = local_utxo.derivation_index;
    chain_position = from_chain_position P H local_utxo.chain_position;
  }
