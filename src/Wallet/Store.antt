-- ===== src/Wallet/Store.antt =====
-- `Connection` of bdk-ffi/src/store.rs, and `Wallet::new`, `Wallet::load` and `Wallet::persist` of bdk-ffi/src/wallet.rs,
-- which use one. A method that locks a connection takes what it holds, and gives back what it leaves.
use bdk_ffi.Prelude.{Bool, String, Result, map_err, ok_or, ◌>>=◌}
use bdk_ffi.Extern.{Primitives}
use bdk_ffi.Errors.Create.{CreateWithPersistError, from_create_with_persist}
use bdk_ffi.Errors.Load.{LoadWithPersistError, could_not_load, from_load_with_persist}
use bdk_ffi.Errors.Small.{SqliteError, sqlite, from_sqlite}
use bdk_ffi.Keys.Library.{KeyLibrary}
use bdk_ffi.Descriptor.{DescriptorLibrary, Descriptor, to_string_with_secret}
use bdk_ffi.Bitcoin.Library.{BitcoinLibrary}
use bdk_ffi.Views.Library.{HashLibrary}
use bdk_ffi.Requests.Library.{ScanLibrary}
use bdk_ffi.Wallet.Library.{WalletLibrary}

module _ (P : Primitives) (L : BitcoinLibrary P) (H : HashLibrary) (S : ScanLibrary P)
    (W : WalletLibrary P L H S) where
  -- `Connection::new`
  unfoldable pub open_at : String → Result W.Connection SqliteError
  unfolding from_sqlite
  open_at path = map_err (from_sqlite P) (W.open_at path)

  unfoldable pub new_in_memory : Result W.Connection SqliteError
  unfolding from_sqlite
  new_in_memory = map_err (from_sqlite P) W.open_in_memory

  unfoldable pub persist :
      P.Wallet → W.Connection → Result Bool SqliteError × P.Wallet × W.Connection
  persist wallet db =
      let (result, wallet', db') = W.persist wallet db in
      (map_err (λ e. sqlite (P.to_string e)) result, wallet', db')

module _ (P : Primitives) (K : KeyLibrary) (D : DescriptorLibrary P K) (L : BitcoinLibrary P)
    (H : HashLibrary) (S : ScanLibrary P) (W : WalletLibrary P L H S) where
  -- `Wallet::new`
  unfoldable pub new :
      Descriptor P K D
      → Descriptor P K D
      → L.Network
      → W.Connection
      → Result P.Wallet CreateWithPersistError × W.Connection
  unfolding to_string_with_secret
  new descriptor change_descriptor network db =
      let external = to_string_with_secret P K D descriptor in
      let internal = to_string_with_secret P K D change_descriptor in
      let (wallet, db') = W.create external internal network db in
      (map_err (from_create_with_persist P) wallet, db')

  -- `Wallet::load`
  unfoldable pub load :
      Descriptor P K D
      → Descriptor P K D
      → W.Connection
      → Result P.Wallet LoadWithPersistError × W.Connection
  unfolding to_string_with_secret
  load descriptor change_descriptor db =
      let external = to_string_with_secret P K D descriptor in
      let internal = to_string_with_secret P K D change_descriptor in
      let (wallet, db') = W.load external internal db in
      (map_err (from_load_with_persist P) wallet >>= λ found. ok_or found could_not_load, db')
