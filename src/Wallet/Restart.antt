-- ===== src/Wallet/Restart.antt =====
-- What a wallet still knows once it has been stored and loaded again.
use mathlib.Core.Path.{subst}
use bdk_ffi.Prelude.{
  ℕ, zero, suc, ◌+◌, ◌<◌, ◌≤◌, ◌^◌, map_err, Bool, String, List, Result, ok, err, some, All,
  All-map, ◌≡◌, refl, sym, ap, ◌∙◌, arith,
}
use bdk_ffi.Extern.{Primitives, KeychainKind}
use bdk_ffi.Keys.Library.{KeyLibrary}
use bdk_ffi.Descriptor.{DescriptorLibrary, Descriptor, to_string_with_secret}
use bdk_ffi.Bitcoin.Library.{BitcoinLibrary}
use bdk_ffi.Views.Library.{HashLibrary, BdkAddressInfo}
use bdk_ffi.Views.Records.{AddressInfo}
use bdk_ffi.Requests.Library.{ScanLibrary}
use bdk_ffi.Wallet.Library.{WalletLibrary}
use bdk_ffi.Wallet.Store.{new, load, persist}
use bdk_ffi.Wallet.Methods.{reveal_next_address, next_derivation_index, peek_address}
use bdk_ffi.Wallet.Revealing.{range, IsRevealing, reveal_each, reveal_each-range}

-- What the library promises of its store. A wallet has two descriptors and belongs to the connection that it was created
-- in, also after it has revealed addresses. Once it is persisted there, its descriptors load a wallet that has revealed as
-- many addresses and whose descriptors have a wildcard where they had one.
pub record IsPersistent (P : Primitives) (L : BitcoinLibrary P) (H : HashLibrary)
    (S : ScanLibrary P) (W : WalletLibrary P L H S) (law : IsRevealing P L H S W) : Type 1 where
  pub Belongs : String → String → P.Wallet → W.Connection → Type 0
  pub create_belongs :
      (external internal : String) (network : L.Network) (db db' : W.Connection) (wallet : P.Wallet)
      → W.create external internal network db ≡ (ok wallet, db')
      → Belongs external internal wallet db'
  pub reveal_belongs :
      (external internal : String) (wallet : P.Wallet) (keychain : KeychainKind) (db : W.Connection)
      → Belongs external internal wallet db
      → Belongs external internal (W.reveal_next_address wallet keychain).1 db
  pub load_persisted :
      (external internal : String) (wallet wallet' : P.Wallet) (db db' : W.Connection)
      (changed : Bool)
      → Belongs external internal wallet db
      → W.persist wallet db ≡ (ok changed, wallet', db')
      → (loaded : P.Wallet) × ((W.load external internal db').0 ≡ ok (some loaded))
        × ((keychain : KeychainKind)
            → W.next_derivation_index loaded keychain ≡ W.next_derivation_index wallet keychain)
        × ((keychain : KeychainKind)
            → law.HasWildcard wallet keychain
            → law.HasWildcard loaded keychain)

range-All : (start n bound : ℕ) → start + n ≤ bound → All (λ i. i < bound) (range start n)
range-All start zero bound le = tt
range-All start (suc n) bound le = (omega arith, range-All (suc start) n bound (omega arith))

map_err-eq-ok :
    {A E F : Type 0} (f : E → F) (r : Result A E) (a : A) → map_err f r ≡ ok a → r ≡ ok a
map_err-eq-ok f (ok b) a e = let same : b ≡ a = ground arith in ap ok same
map_err-eq-ok f (err b) a e = ground arith

module _ (P : Primitives) (L : BitcoinLibrary P) (H : HashLibrary) (S : ScanLibrary P)
    (W : WalletLibrary P L H S) where
  reveal_each_belongs :
      {law : IsRevealing P L H S W} (store : IsPersistent P L H S W law)
      (external internal : String) (n : ℕ) (wallet : P.Wallet) (keychain : KeychainKind)
      (db : W.Connection)
      → store.Belongs external internal wallet db
      → store.Belongs external internal (reveal_each P L H S W n wallet keychain).1 db
  unfolding reveal_each reveal_next_address
  reveal_each_belongs store external internal zero wallet keychain db here = here
  reveal_each_belongs store external internal (suc n) wallet keychain db here =
      reveal_each_belongs store external internal n (W.reveal_next_address wallet keychain).1
        keychain db (store.reveal_belongs external internal wallet keychain db here)

  next-reveal_each :
      (law : IsRevealing P L H S W) (n : ℕ) (wallet : P.Wallet) (keychain : KeychainKind)
      → law.HasWildcard wallet keychain
      → suc (W.next_derivation_index wallet keychain + n) < 2 ^ 31
      → W.next_derivation_index (reveal_each P L H S W n wallet keychain).1 keychain
        ≡ W.next_derivation_index wallet keychain + n
  unfolding reveal_each
  next-reveal_each law zero wallet keychain wild lt = omega arith
  next-reveal_each law (suc n) wallet keychain wild lt =
      ap (λ (p : List (AddressInfo P L) × P.Wallet). W.next_derivation_index p.1 keychain)
        (reveal_each-range P L H S W law n wallet keychain wild (omega arith))
      ∙ law.next_revealed wallet keychain (W.next_derivation_index wallet keychain + n) wild
          (omega arith) (omega arith)
      ∙ omega arith

  reveal_each_wildcard :
      (law : IsRevealing P L H S W) (n : ℕ) (wallet : P.Wallet) (keychain : KeychainKind)
      → law.HasWildcard wallet keychain
      → suc (W.next_derivation_index wallet keychain + n) < 2 ^ 31
      → law.HasWildcard (reveal_each P L H S W n wallet keychain).1 keychain
  unfolding reveal_each
  reveal_each_wildcard law zero wallet keychain wild lt = wild
  reveal_each_wildcard law (suc n) wallet keychain wild lt =
      subst (λ (p : List (AddressInfo P L) × P.Wallet). law.HasWildcard p.1 keychain)
        (sym (reveal_each-range P L H S W law n wallet keychain wild (omega arith)))
        (law.revealed_wildcard wallet keychain (W.next_derivation_index wallet keychain + n) wild)

  -- The addresses that are revealed one by one have indices below the one that is next in the end.
  reveal_each_below :
      (law : IsRevealing P L H S W) (n : ℕ) (wallet : P.Wallet) (keychain : KeychainKind)
      → law.HasWildcard wallet keychain
      → suc (W.next_derivation_index wallet keychain + n) < 2 ^ 31
      → All
          (λ (a : AddressInfo P L). a.index < W.next_derivation_index wallet keychain + n)
          (reveal_each P L H S W n wallet keychain).0
  unfolding reveal_each peek_address
  reveal_each_below law zero wallet keychain wild lt = tt
  reveal_each_below law (suc n) wallet keychain wild lt =
      subst
        (All (λ (a : AddressInfo P L). a.index < W.next_derivation_index wallet keychain + suc n))
        (ap (λ (p : List (AddressInfo P L) × P.Wallet). p.0)
          (sym (reveal_each-range P L H S W law n wallet keychain wild (omega arith))))
        (All-map (peek_address P L H S W wallet keychain)
          (λ i. i < W.next_derivation_index wallet keychain + suc n) _
          (range (W.next_derivation_index wallet keychain) (suc n))
          (λ i lt'. omega (arith, lt', law.peek_index wallet keychain i wild))
          (range-All (W.next_derivation_index wallet keychain) (suc n)
            (W.next_derivation_index wallet keychain + suc n) (omega arith)))

module _ (P : Primitives) (K : KeyLibrary) (D : DescriptorLibrary P K) (L : BitcoinLibrary P)
    (H : HashLibrary) (S : ScanLibrary P) (W : WalletLibrary P L H S) (law : IsRevealing P L H S W)
    (store : IsPersistent P L H S W law) where
  create_of_new :
      (external internal : Descriptor P K D) (network : L.Network) (db db' : W.Connection)
      (wallet : P.Wallet)
      → new P K D L H S W external internal network db ≡ (ok wallet, db')
      → W.create
          (to_string_with_secret P K D external)
          (to_string_with_secret P K D internal)
          network
          db
        ≡ (ok wallet, db')
  unfolding new
  create_of_new external internal network db db' wallet e =
      let found = map_err-eq-ok _ _ wallet (ap (λ p. p.0) e) in λ i. (found i, (e i).1)

  persist_of_persist :
      (wallet wallet' : P.Wallet) (db db' : W.Connection) (changed : Bool)
      → persist P L H S W wallet db ≡ (ok changed, wallet', db')
      → W.persist wallet db ≡ (ok changed, wallet', db')
  unfolding persist
  persist_of_persist wallet wallet' db db' changed e =
      let found = map_err-eq-ok _ _ changed (ap (λ p. p.0) e) in λ i. (found i, (e i).1, (e i).2)

  -- If the library reveals and stores as it is documented, then no address is revealed again after
  -- a restart: when a wallet was created in a connection, has revealed addresses of a keychain one
  -- by one, below the last derivation index, its descriptor for that keychain having a wildcard,
  -- and was persisted in that connection, `Wallet::load` with the same descriptors gives a wallet,
  -- and the address that it reveals next has a greater index than all of them.
  pub restart-fresh :
      (external internal : Descriptor P K D) (network : L.Network) (keychain : KeychainKind) (n : ℕ)
      (db db' db'' : W.Connection) (wallet wallet' : P.Wallet) (changed : Bool)
      → new P K D L H S W external internal network db ≡ (ok wallet, db')
      → law.HasWildcard wallet keychain
      → suc (next_derivation_index P L H S W wallet keychain + n) < 2 ^ 31
      → persist P L H S W (reveal_each P L H S W n wallet keychain).1 db'
        ≡ (ok changed, wallet', db'')
      → (loaded : P.Wallet) × ((load P K D L H S W external internal db'').0 ≡ ok loaded)
        × All
            (λ (a : AddressInfo P L).
              a.index < (reveal_next_address P L H S W loaded keychain).0.index)
            (reveal_each P L H S W n wallet keychain).0
  unfolding load reveal_next_address next_derivation_index
  restart-fresh external internal network keychain n db db' db'' wallet wallet' changed created wild
        lt stored =
      let here =
        reveal_each_belongs P L H S W store (to_string_with_secret P K D external)
          (to_string_with_secret P K D internal) n wallet keychain db'
          (store.create_belongs _ _ network db db' wallet
            (create_of_new external internal network db db' wallet created)) in
      let (loaded, found, same, kept) =
        store.load_persisted _ _ _ wallet' db' db'' changed here
          (persist_of_persist _ wallet' db' db'' changed stored) in
      let moved : W.next_derivation_index loaded keychain
          ≡ W.next_derivation_index wallet keychain + n =
        same keychain ∙ next-reveal_each P L H S W law n wallet keychain wild lt in
      let still = kept keychain (reveal_each_wildcard P L H S W law n wallet keychain wild lt) in
      let top : (W.reveal_next_address loaded keychain).0.index
          ≡ W.next_derivation_index wallet keychain + n =
        ap (λ (p : BdkAddressInfo P L × P.Wallet). p.0.index)
          (law.reveal_next loaded keychain still (omega (arith, moved)))
        ∙ law.peek_index loaded keychain (W.next_derivation_index loaded keychain) still
        ∙ moved in
      (
        loaded,
        rw (found) refl,
        subst
            (λ i.
              All (λ (a : AddressInfo P L). a.index < i)
                (reveal_each P L H S W n wallet keychain).0)
            (sym top) (reveal_each_below P L H S W law n wallet keychain wild lt),
      )
