-- ===== src/Wallet/Loading.antt =====
-- How `Wallet::load` ends.
use bdk_ffi.Prelude.{
  Option, none, some, Result, ok, err, map_err, ok_or, ◌>>=◌, ◌≡◌, ◌≢◌, refl, arith,
}
use bdk_ffi.Extern.{Primitives}
use bdk_ffi.Errors.Load.{
  LoadWithPersistError, could_not_load, BdkLoadWithPersistError, from_load_with_persist,
}
use bdk_ffi.Keys.Library.{KeyLibrary}
use bdk_ffi.Descriptor.{DescriptorLibrary, Descriptor, to_string_with_secret}
use bdk_ffi.Bitcoin.Library.{BitcoinLibrary}
use bdk_ffi.Views.Library.{HashLibrary}
use bdk_ffi.Requests.Library.{ScanLibrary}
use bdk_ffi.Wallet.Library.{WalletLibrary}
use bdk_ffi.Wallet.Store.{load}

module _ (P : Primitives) (K : KeyLibrary) (D : DescriptorLibrary P K) (L : BitcoinLibrary P)
    (H : HashLibrary) (S : ScanLibrary P) (W : WalletLibrary P L H S) where
  -- What the library answers for two descriptors.
  abbrev answer :
      Descriptor P K D
      → Descriptor P K D
      → W.Connection
      → Result (Option P.Wallet) (BdkLoadWithPersistError P.Payload)
  answer external internal db =
      (W.load (to_string_with_secret P K D external) (to_string_with_secret P K D internal) db).0

  -- Each of the three results of `load` stands for one kind of answer.
  abbrev LoadsAs :
      Result (Option P.Wallet) (BdkLoadWithPersistError P.Payload)
      → Result P.Wallet LoadWithPersistError
      → Type 0
  LoadsAs (ok (some found)) result = result ≡ ok found
  LoadsAs (ok none) result = result ≡ err could_not_load
  LoadsAs (err e) result =
      (result ≡ err (from_load_with_persist P e)) × (result ≢ err could_not_load)

  from_load_with_persist-loaded :
      (e : BdkLoadWithPersistError P.Payload) → from_load_with_persist P e ≢ could_not_load
  unfolding from_load_with_persist
  from_load_with_persist-loaded (BdkLoadWithPersistError.persist v) same = ground arith
  from_load_with_persist-loaded (BdkLoadWithPersistError.invalid_change_set v) same = ground arith

  -- Each kind of result of `Wallet::load` stands for one answer of the library to the two printed
  -- descriptors with their secrets: a wallet, if one was found; `could_not_load`, if none was stored;
  -- the converted error, if the library failed, which is never `could_not_load`.
  load-LoadsAs :
      (external internal : Descriptor P K D) (db : W.Connection)
      → LoadsAs (answer external internal db) (load P K D L H S W external internal db).0
  unfolding load
  load-LoadsAs external internal db =
      elim (answer external internal db)
        as (λ r.
          LoadsAs r
            (map_err (from_load_with_persist P) r >>= λ found. ok_or found could_not_load)) [
              | ok (some found) ↦ refl
              | ok none ↦ refl
              | err e ↦ (refl, λ same. from_load_with_persist-loaded e (ground arith))
            ]
