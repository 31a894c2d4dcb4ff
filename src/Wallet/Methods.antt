-- ===== src/Wallet/Methods.antt =====
-- The other methods of `Wallet` in bdk-ffi/src/wallet.rs. A method that changes the wallet behind its lock gives the
-- changed wallet next to its result.
use Prim.Native.Nat.{Ordering}
use mathlib.Core.Option
use bdk_ffi.Prelude.{ℕ, Bool, String, List, map, Option, Result, map_ok, map_err, ok_or}
use bdk_ffi.Extern.{Primitives, KeychainKind}
use bdk_ffi.Errors.Descriptor.{DescriptorError, from_descriptor}
use bdk_ffi.Errors.Small.{
  CannotConnectError, CalculateFeeError, TxidParseError, invalid_txid, from_cannot_connect,
  from_calculate_fee,
}
use bdk_ffi.Bitcoin.Library.{BitcoinLibrary}
use bdk_ffi.Bitcoin.Transaction.{Transaction}
use bdk_ffi.Views.Library.{HashLibrary, BdkCanonicalTx}
use bdk_ffi.Views.Policy.{Policy}
use bdk_ffi.Views.Records.{
  KeychainAndIndex, AddressInfo, Balance, CanonicalTx, LocalOutput, SentAndReceivedValues,
  from_address_info, from_balance, from_canonical_tx, from_local_output,
}
use bdk_ffi.Requests.Library.{ScanLibrary}
use bdk_ffi.Requests.Electrum.{Update}
use bdk_ffi.Requests.World.{World}
use bdk_ffi.Requests.World
use bdk_ffi.Wallet.Library.{WalletLibrary}

module _ (P : Primitives) (L : BitcoinLibrary P) (H : HashLibrary) (S : ScanLibrary P)
    (W : WalletLibrary P L H S) where
  unfoldable pub derivation_of_spk : P.Wallet → P.Script → Option KeychainAndIndex
  derivation_of_spk wallet spk =
      Option.map (λ ((k, i) : KeychainKind × ℕ). record { keychain = k; index = i })
        (W.derivation_of_spk wallet spk)

  unfoldable pub cancel_tx : P.Wallet → Transaction P → P.Wallet
  cancel_tx wallet tx = W.cancel_tx wallet tx

  unfoldable pub get_utxo : P.Wallet → P.OutPoint → Option (LocalOutput P)
  unfolding from_local_output
  get_utxo wallet op = Option.map (from_local_output P L H) (W.get_utxo wallet op)

  unfoldable pub reveal_next_address : P.Wallet → KeychainKind → AddressInfo P L × P.Wallet
  unfolding from_address_info
  reveal_next_address wallet keychain =
      let (address_info, wallet') = W.reveal_next_address wallet keychain in
      (from_address_info P L address_info, wallet')

  unfoldable pub peek_address : P.Wallet → KeychainKind → ℕ → AddressInfo P L
  unfolding from_address_info
  peek_address wallet keychain index = from_address_info P L (W.peek_address wallet keychain index)

  unfoldable pub next_derivation_index : P.Wallet → KeychainKind → ℕ
  next_derivation_index wallet keychain = W.next_derivation_index wallet keychain

  unfoldable pub next_unused_address : P.Wallet → KeychainKind → AddressInfo P L × P.Wallet
  unfolding from_address_info
  next_unused_address wallet keychain =
      let (address_info, wallet') = W.next_unused_address wallet keychain in
      (from_address_info P L address_info, wallet')

  unfoldable pub mark_used : P.Wallet → KeychainKind → ℕ → Bool × P.Wallet
  mark_used wallet keychain index = W.mark_used wallet keychain index

  unfoldable pub reveal_addresses_to :
      P.Wallet → KeychainKind → ℕ → List (AddressInfo P L) × P.Wallet
  unfolding from_address_info
  reveal_addresses_to wallet keychain index =
      let (revealed, wallet') = W.reveal_addresses_to wallet keychain index in
      (map (from_address_info P L) revealed, wallet')

  unfoldable pub list_unused_addresses : P.Wallet → KeychainKind → List (AddressInfo P L)
  unfolding from_address_info
  list_unused_addresses wallet keychain =
      map (from_address_info P L) (W.list_unused_addresses wallet keychain)

  unfoldable pub apply_update :
      P.Wallet → Update P S → Result (Unit {0}) CannotConnectError × P.Wallet
  unfolding from_cannot_connect
  apply_update wallet update =
      let (result, wallet') = W.apply_update wallet update in
      (map_err from_cannot_connect result, wallet')

  unfoldable pub derivation_index : P.Wallet → KeychainKind → Option ℕ
  derivation_index wallet keychain = W.derivation_index wallet keychain

  unfoldable pub descriptor_checksum : P.Wallet → KeychainKind → String
  descriptor_checksum wallet keychain = W.descriptor_checksum wallet keychain

  unfoldable pub policies : P.Wallet → KeychainKind → Result (Option (Policy P)) DescriptorError
  policies wallet keychain = map_err (from_descriptor P) (W.policies wallet keychain)

  unfoldable pub network : P.Wallet → L.Network
  network wallet = W.network wallet

  unfoldable pub balance : P.Wallet → Balance P
  unfolding from_balance
  balance wallet = from_balance P W.trusted_spendable W.total (W.balance wallet)

  unfoldable pub is_mine : P.Wallet → P.Script → Bool
  is_mine wallet script = W.is_mine wallet script

  unfoldable pub sent_and_received : P.Wallet → Transaction P → SentAndReceivedValues P
  sent_and_received wallet tx =
      let (sent, received) = W.sent_and_received wallet tx in
      record { sent = sent; received = received }

  -- The comparison that `transactions` sorts by: with the two transactions swapped.
  unfoldable pub by_position : BdkCanonicalTx P H → BdkCanonicalTx P H → Ordering
  by_position tx1 tx2 = W.compare tx2.chain_position tx1.chain_position

  unfoldable pub transactions : P.Wallet → List (CanonicalTx P)
  unfolding by_position from_canonical_tx
  transactions wallet = map (from_canonical_tx P H) (W.transactions_sort_by wallet by_position)

  unfoldable pub get_tx : P.Wallet → String → Result (Option (CanonicalTx P)) TxidParseError
  unfolding from_canonical_tx
  get_tx wallet txid =
      map_ok (λ id. Option.map (from_canonical_tx P H) (W.get_tx wallet id))
        (ok_or (P.parse_txid txid) (invalid_txid txid))

  unfoldable pub calculate_fee : P.Wallet → Transaction P → Result P.Amount (CalculateFeeError P)
  calculate_fee wallet tx = map_err (from_calculate_fee P) (W.calculate_fee wallet tx)

  unfoldable pub calculate_fee_rate :
      P.Wallet → Transaction P → Result P.FeeRate (CalculateFeeError P)
  calculate_fee_rate wallet tx = map_err (from_calculate_fee P) (W.calculate_fee_rate wallet tx)

  unfoldable pub list_unspent : P.Wallet → List (LocalOutput P)
  unfolding from_local_output
  list_unspent wallet = map (from_local_output P L H) (W.list_unspent wallet)

  unfoldable pub list_output : P.Wallet → List (LocalOutput P)
  unfolding from_local_output
  list_output wallet = map (from_local_output P L H) (W.list_output wallet)

  -- What starts a scan puts the library's builder into a new cell of the requests.
  unfoldable pub start_full_scan : P.Wallet → World P S → ℕ × World P S
  unfolding World.start_full_scan
  start_full_scan wallet w = World.start_full_scan P S (W.start_full_scan wallet) w

  unfoldable pub start_sync_with_revealed_spks : P.Wallet → World P S → ℕ × World P S
  unfolding World.start_sync_with_revealed_spks
  start_sync_with_revealed_spks wallet w =
      World.start_sync_with_revealed_spks P S (W.start_sync_with_revealed_spks wallet) w
