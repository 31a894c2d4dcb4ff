-- ===== src/Wallet/Library.antt =====
-- What the wallet uses of `bdk_wallet` and its database, which are not part of the repository.
use Prim.Native.Nat.{Ordering}
use bdk_ffi.Prelude.{ℕ, Bool, String, List, Option, Result}
use bdk_ffi.Extern.{Primitives, KeychainKind}
use bdk_ffi.Errors.Create.{BdkCreateWithPersistError}
use bdk_ffi.Errors.Descriptor.{BdkDescriptorError}
use bdk_ffi.Errors.Load.{BdkLoadWithPersistError}
use bdk_ffi.Errors.Small.{BdkCannotConnectError, BdkCalculateFeeError}
use bdk_ffi.Requests.Library.{ScanLibrary, BdkUpdate}
use bdk_ffi.Bitcoin.Library.{BitcoinLibrary, BdkTransaction}
use bdk_ffi.Views.Library.{
  HashLibrary, BdkChainPosition, BdkCanonicalTx, BdkAddressInfo, BdkBalance, BdkLocalOutput,
}
use bdk_ffi.Views.Policy.{BdkPolicy}

-- A method on `&mut self` gives the changed wallet next to its result; so does one on the connection. An iterator is the
-- list of what it gives.
pub record WalletLibrary (P : Primitives) (L : BitcoinLibrary P) (H : HashLibrary)
    (S : ScanLibrary P) : Type 1 where
  pub Connection : Type 0
  pub open_at : String → Result Connection P.Payload
  pub open_in_memory : Result Connection P.Payload
  pub create :
      String
      → String
      → L.Network
      → Connection
      → Result P.Wallet (BdkCreateWithPersistError P.Payload) × Connection
  -- `load_wallet` with both descriptors, and the keys of both.
  pub load :
      String
      → String
      → Connection
      → Result (Option P.Wallet) (BdkLoadWithPersistError P.Payload) × Connection
  pub persist : P.Wallet → Connection → Result Bool P.Payload × P.Wallet × Connection
  pub derivation_of_spk : P.Wallet → P.Script → Option (KeychainKind × ℕ)
  pub cancel_tx : P.Wallet → BdkTransaction P → P.Wallet
  pub get_utxo : P.Wallet → P.OutPoint → Option (BdkLocalOutput P H)
  pub reveal_next_address : P.Wallet → KeychainKind → BdkAddressInfo P L × P.Wallet
  pub peek_address : P.Wallet → KeychainKind → ℕ → BdkAddressInfo P L
  pub next_derivation_index : P.Wallet → KeychainKind → ℕ
  pub next_unused_address : P.Wallet → KeychainKind → BdkAddressInfo P L × P.Wallet
  pub mark_used : P.Wallet → KeychainKind → ℕ → Bool × P.Wallet
  pub reveal_addresses_to : P.Wallet → KeychainKind → ℕ → List (BdkAddressInfo P L) × P.Wallet
  pub list_unused_addresses : P.Wallet → KeychainKind → List (BdkAddressInfo P L)
  pub apply_update :
      P.Wallet
      → BdkUpdate S.Indices S.TxUpdate S.ChainUpdate
      → Result (Unit {0}) BdkCannotConnectError × P.Wallet
  pub derivation_index : P.Wallet → KeychainKind → Option ℕ
  pub descriptor_checksum : P.Wallet → KeychainKind → String
  pub policies :
      P.Wallet → KeychainKind → Result (Option (BdkPolicy P)) (BdkDescriptorError P.Payload)
  pub network : P.Wallet → L.Network
  pub balance : P.Wallet → BdkBalance P
  pub trusted_spendable : BdkBalance P → P.Amount
  pub total : BdkBalance P → P.Amount
  pub is_mine : P.Wallet → P.Script → Bool
  pub sent_and_received : P.Wallet → BdkTransaction P → P.Amount × P.Amount
  -- `ChainPosition::cmp`, into `std::cmp::Ordering`
  pub compare : BdkChainPosition P H → BdkChainPosition P H → Ordering
  pub transactions_sort_by :
      P.Wallet → (BdkCanonicalTx P H → BdkCanonicalTx P H → Ordering) → List (BdkCanonicalTx P H)
  pub get_tx : P.Wallet → P.Txid → Option (BdkCanonicalTx P H)
  pub calculate_fee : P.Wallet → BdkTransaction P → Result P.Amount (BdkCalculateFeeError P)
  pub calculate_fee_rate : P.Wallet → BdkTransaction P → Result P.FeeRate (BdkCalculateFeeError P)
  pub list_unspent : P.Wallet → List (BdkLocalOutput P H)
  pub list_output : P.Wallet → List (BdkLocalOutput P H)
  pub start_full_scan : P.Wallet → S.FullScanRequestBuilder
  pub start_sync_with_revealed_spks : P.Wallet → S.SyncRequestBuilder
