-- ===== src/Views/Library.antt =====
-- What the shown values are made from: the structures of the wallet library and of the Esplora client, by the fields that
-- the source reads. They are not part of the repository.
use bdk_ffi.Prelude.{ℕ, Bool, String, Option}
use bdk_ffi.Extern.{Primitives, KeychainKind}
use bdk_ffi.Bitcoin.Library.{BitcoinLibrary, BdkTxOut, BdkTransaction}

pub record HashLibrary : Type 1 where
  pub BlockHash : Type 0
  pub block_hash_string : BlockHash → String

-- `chain::ConfirmationBlockTime` with its `BlockId`, and `chain::ChainPosition`.
pub record BdkBlockId (H : HashLibrary) : Type 0 where
  pub height : ℕ
  pub hash : H.BlockHash

pub record BdkConfirmationBlockTime (H : HashLibrary) : Type 0 where
  pub block_id : BdkBlockId H
  pub confirmation_time : ℕ

pub data BdkChainPosition (P : Primitives) (H : HashLibrary) : Type 0 where
  confirmed : BdkConfirmationBlockTime H → Option P.Txid → BdkChainPosition P H
  unconfirmed : Option ℕ → BdkChainPosition P H

-- `tx_graph::CanonicalTx`, whose transaction stands in a node.
pub record BdkCanonicalTx (P : Primitives) (H : HashLibrary) : Type 0 where
  pub tx : BdkTransaction P
  pub chain_position : BdkChainPosition P H

pub record BdkAddressInfo (P : Primitives) (L : BitcoinLibrary P) : Type 0 where
  pub index : ℕ
  pub address : L.Address
  pub keychain : KeychainKind

pub record BdkBalance (P : Primitives) : Type 0 where
  pub immature : P.Amount
  pub trusted_pending : P.Amount
  pub untrusted_pending : P.Amount
  pub confirmed : P.Amount

pub record BdkLocalOutput (P : Primitives) (H : HashLibrary) : Type 0 where
  pub outpoint : P.OutPoint
  pub txout : BdkTxOut P
  pub keychain : KeychainKind
  pub is_spent : Bool
  pub derivation_index : ℕ
  pub chain_position : BdkChainPosition P H

-- `esplora_client::api::TxStatus` and `Tx`. A version is an `i32`, by its 32 bits.
pub record BdkTxStatus (H : HashLibrary) : Type 0 where
  pub confirmed : Bool
  pub block_height : Option ℕ
  pub block_hash : Option H.BlockHash
  pub block_time : Option ℕ

pub record BdkTx (P : Primitives) (H : HashLibrary) : Type 0 where
  pub txid : P.Txid
  pub version : ℕ
  pub locktime : ℕ
  pub size : ℕ
  pub weight : ℕ
  pub fee : ℕ
  pub status : BdkTxStatus H
