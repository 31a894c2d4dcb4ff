-- ===== src/Tests/Rounds.antt =====
-- A wallet that is loaded, brought up to date and restarted.

use bdk_ffi.Prelude.{ℕ, ◌<◌, true, none, some, ok, All, ◌≡◌, refl, sym, arith}
use bdk_ffi.Extern.{external}
use bdk_ffi.Wallet.Store.{new, load, persist}
use bdk_ffi.Wallet.Methods.{
  transactions, get_tx, reveal_addresses_to, reveal_next_address, next_derivation_index,
}
use bdk_ffi.Wallet.Methods
use bdk_ffi.Wallet.Rounds.{Client, full_round, sync_round}
use bdk_ffi.Wallet.Rounds.Outcome.{result_and_wallet, full_round-conclude, sync_round-conclude}
use bdk_ffi.Wallet.Restart.{IsPersistent, restart-fresh}
use bdk_ffi.Views.Records.{AddressInfo}
use bdk_ffi.Requests.Electrum
use bdk_ffi.Requests.Esplora
use bdk_ffi.Requests.World
use bdk_ffi.Wallet.Revealing.{reveal_each}
use bdk_ffi.Tests.Primitives.{plain}
use bdk_ffi.Tests.Bitcoin.{coins}
use bdk_ffi.Tests.Keys.{paths}
use bdk_ffi.Tests.Requests.{scans, start, full_inspector, sync_inspector}
use bdk_ffi.Tests.Descriptor.{texts, native_segwit, change}
use bdk_ffi.Tests.Positions.{hashes}
use bdk_ffi.Tests.Wallet.{small, small-IsRevealing, small-HasWildcard}

small-IsPersistent : IsPersistent plain coins hashes scans small small-IsRevealing
small-IsPersistent = record {
  Belongs = λ external internal wallet db. Unit {0};
  create_belongs = λ external internal network db db' wallet created. tt;
  reveal_belongs = λ external internal wallet keychain db here. tt;
  load_persisted = λ external internal wallet wallet' db db' changed here stored.
      (wallet, sym (λ i. ok ((stored i).2)), λ keychain. refl, λ keychain wild. wild);
}

full_round-conclude_example :
    result_and_wallet plain coins hashes scans small (
      full_round plain coins hashes scans small full_inspector
        (Client.esplora 0 4)
        20
        ((3, 1), start))
    ≡ (ok tt, (80, 20))
unfolding Esplora.full_update Methods.apply_update
full_round-conclude_example =
    full_round-conclude plain coins hashes scans small full_inspector (Client.esplora 0 4) 20 (3, 1)
      start

sync_round-conclude_example :
    result_and_wallet plain coins hashes scans small (
      sync_round plain coins hashes scans small sync_inspector
        (Client.electrum 0 10 true)
        ((3, 1), start))
    ≡ (ok tt, (90, 0))
unfolding Electrum.sync_update Methods.apply_update World.spks_only
sync_round-conclude_example =
    sync_round-conclude plain coins hashes scans small sync_inspector (Client.electrum 0 10 true)
      (3, 1) start

-- A new wallet has revealed nothing, and a stored one what it had revealed.
created :
    new plain paths texts coins hashes scans small native_segwit change true none
    ≡ (ok (0, 0), none)
unfolding new
created = refl

stored :
    persist plain coins hashes scans small
      (reveal_each plain coins hashes scans small 3 (0, 0) external).1
      none
    ≡ (ok true, (3, 0), some (3, 0))
unfolding persist reveal_each reveal_next_address
stored = refl

restart-fresh_example :
    (loaded : ℕ × ℕ) × ((load plain paths texts coins hashes scans small native_segwit change
        (some (3, 0))).0
      ≡ ok loaded)
    × All
        (λ (a : AddressInfo plain coins).
          a.index < (reveal_next_address plain coins hashes scans small loaded external).0.index)
        (reveal_each plain coins hashes scans small 3 (0, 0) external).0
unfolding next_derivation_index
restart-fresh_example =
    restart-fresh plain paths texts coins hashes scans small small-IsRevealing small-IsPersistent
      native_segwit change true external 3 none none (some (3, 0)) (0, 0) (3, 0) true created
      (small-HasWildcard (0, 0) external) (omega arith) stored
