-- ===== src/Bitcoin/Library.antt =====
-- What addresses and transactions use of the Bitcoin library, which is not part of the repository. The fields of its
-- structures that the source reads are fields here; the methods that it calls are parameters.
use bdk_ffi.Prelude.{ℕ, Bool, String, List, Result}
use bdk_ffi.Extern.{Primitives}
use bdk_ffi.Errors.Address.{BdkParseError}
use bdk_ffi.Errors.Transaction.{BdkEncodeError}
use bdk_ffi.Errors.FromScript.{BdkFromScriptError}
use bdk_ffi.Types.LockTime.{BdkLockTime}

-- `bitcoin::TxIn`, `bitcoin::TxOut` and `bitcoin::Transaction`. A version is an `i32`, by its 32 bits.
pub record BdkTxIn (P : Primitives) : Type 0 where
  pub previous_output : P.OutPoint
  pub script_sig : P.Script
  pub sequence : ℕ
  pub witness : List (List ℕ)

pub record BdkTxOut (P : Primitives) : Type 0 where
  pub value : P.Amount
  pub script_pubkey : P.Script

pub record BdkTransaction (P : Primitives) : Type 0 where
  pub version : ℕ
  pub lock_time : BdkLockTime P
  pub input : List (BdkTxIn P)
  pub output : List (BdkTxOut P)

pub record BitcoinLibrary (P : Primitives) : Type 1 where
  pub to_sat : P.Amount → ℕ
  pub lock_time_to_consensus_u32 : BdkLockTime P → ℕ
  pub Network : Type 0
  -- `Address<NetworkChecked>` and `Address<NetworkUnchecked>`
  pub Address : Type 0
  pub Unchecked : Type 0
  pub parse_address : String → Result Unchecked (BdkParseError P.Payload)
  pub require_network : Unchecked → Network → Result Address (BdkParseError P.Payload)
  pub is_valid_for_network : Unchecked → Network → Bool
  pub address_to_string : Address → String
  pub address_from_script : P.Script → Network → Result Address (BdkFromScriptError P.Payload)
  pub address_script_pubkey : Address → P.Script
  pub to_qr_uri : Address → String
  -- `consensus_decode` reads a transaction from the front of the bytes and leaves the rest unread.
  pub consensus_decode : List ℕ → Result (BdkTransaction P × List ℕ) (BdkEncodeError P.Payload)
  pub serialize : BdkTransaction P → List ℕ
  pub compute_txid : BdkTransaction P → P.Txid
  pub weight : BdkTransaction P → ℕ
  pub total_size : BdkTransaction P → ℕ
  pub vsize : BdkTransaction P → ℕ
  pub is_coinbase : BdkTransaction P → Bool
  pub is_explicitly_rbf : BdkTransaction P → Bool
  pub is_lock_time_enabled : BdkTransaction P → Bool
