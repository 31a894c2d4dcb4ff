-- ===== src/Wallet/Rounds.antt =====
-- A round of foreign code that brings a wallet up to date: it starts a scan of the wallet, has it inspected, builds the
-- request, hands it to a client, and applies the update. The state is the wallet and the requests.
pub mod Outcome
use bdk_ffi.Prelude.{ℕ, Bool, Result, ok, err, map_ok, map_err, cast}
use bdk_ffi.Prelude.Actions.{Action, ◌>>=◌}
use bdk_ffi.Extern.{Primitives}
use bdk_ffi.Errors.Electrum.{ElectrumError, from_electrum}
use bdk_ffi.Errors.Esplora.{EsploraError}
use bdk_ffi.Errors.Esplora.Boxed.{from_esplora_box}
use bdk_ffi.Errors.Small.{CannotConnectError, from_cannot_connect}
use bdk_ffi.Bitcoin.Library.{BitcoinLibrary}
use bdk_ffi.Views.Library.{HashLibrary}
use bdk_ffi.Requests.Library.{ScanLibrary}
use bdk_ffi.Requests.Electrum.{Update}
use bdk_ffi.Requests.Electrum
use bdk_ffi.Requests.Esplora
use bdk_ffi.Requests.World.{
  World, RequestBuilderError, FullScanScriptInspector, SyncScriptInspector, inspect_spks,
  inspect_spks_for_all_keychains, spks_only,
}
use bdk_ffi.Requests.World
use bdk_ffi.Wallet.Library.{WalletLibrary}
use bdk_ffi.Wallet.Methods.{start_full_scan, start_sync_with_revealed_spks, apply_update}

-- The first error ends the round.
pub data RoundError : Type 0 where
  builder : RequestBuilderError → RoundError
  electrum : ElectrumError → RoundError
  esplora : EsploraError → RoundError
  connect : CannotConnectError → RoundError

-- A client, with what it is told about its requests.
pub data Client (P : Primitives) (S : ScanLibrary P) : Type 0 where
  electrum : S.ElectrumClient → ℕ → Bool → Client P S
  esplora : S.EsploraClient → ℕ → Client P S

module _ (P : Primitives) (S : ScanLibrary P) where
  -- A scan by either client.
  abbrev pub full_scan_by :
      Client P S → ℕ → ℕ → World P S → Result (Update P S) RoundError × World P S
  full_scan_by (Client.electrum client batch fetch) gap h w =
      let (r, w') = Electrum.full_scan P S client h gap batch fetch w in
      (map_err RoundError.electrum r, w')
  full_scan_by (Client.esplora client parallel) gap h w =
      let (r, w') = Esplora.full_scan P S client h gap parallel w in
      (map_err RoundError.esplora r, w')

  abbrev pub sync_by : Client P S → ℕ → World P S → Result (Update P S) RoundError × World P S
  sync_by (Client.electrum client batch fetch) h w =
      let (r, w') = Electrum.sync P S client h batch fetch w in (map_err RoundError.electrum r, w')
  sync_by (Client.esplora client parallel) h w =
      let (r, w') = Esplora.sync P S client h parallel w in (map_err RoundError.esplora r, w')

  -- What the library answers to either client.
  abbrev pub full_answer : Client P S → ℕ → S.FullScanRequest → Result (Update P S) RoundError
  full_answer (Client.electrum client batch fetch) gap request = map_err RoundError.electrum (
      map_ok (Electrum.full_update P S) (
        map_err (from_electrum P) (
          S.electrum_full_scan client request (cast P.usize_bits gap) (cast P.usize_bits batch)
            fetch)))
  full_answer (Client.esplora client parallel) gap request = map_err RoundError.esplora (
      map_ok (Esplora.full_update P S) (
        map_err (from_esplora_box P) (
          S.esplora_full_scan client request (cast P.usize_bits gap) (cast P.usize_bits parallel))))

  abbrev pub sync_answer : Client P S → S.SyncRequest → Result (Update P S) RoundError
  sync_answer (Client.electrum client batch fetch) request = map_err RoundError.electrum (
      map_ok (Electrum.sync_update P S) (
        map_err (from_electrum P) (S.electrum_sync client request (cast P.usize_bits batch) fetch)))
  sync_answer (Client.esplora client parallel) request = map_err RoundError.esplora (
      map_ok (Esplora.sync_update P S)
        (map_err (from_esplora_box P) (S.esplora_sync client request (cast P.usize_bits parallel))))

module _ (P : Primitives) (L : BitcoinLibrary P) (H : HashLibrary) (S : ScanLibrary P)
    (W : WalletLibrary P L H S) where
  -- The wallet and the requests.
  abbrev pub State : Type 0
  State = P.Wallet × World P S

  -- A call that works on the wallet or on the requests only.
  abbrev on_wallet :
      {A : Type 0} → (P.Wallet → Result A RoundError × P.Wallet) → Action State RoundError A
  on_wallet call (wallet, w) = let (r, wallet') = call wallet in (r, (wallet', w))

  abbrev on_requests :
      {A : Type 0} → (World P S → Result A RoundError × World P S) → Action State RoundError A
  on_requests call (wallet, w) = let (r, w') = call w in (r, (wallet, w'))

  abbrev built :
      {A : Type 0} → Result A RequestBuilderError × World P S → Result A RoundError × World P S
  built (r, w) = (map_err RoundError.builder r, w)

  abbrev start : (P.Wallet → World P S → ℕ × World P S) → Action State RoundError ℕ
  start begin (wallet, w) = let (h, w') = begin wallet w in (ok h, (wallet, w'))

  abbrev pub applied : Update P S → P.Wallet → Result (Unit {0}) RoundError × P.Wallet
  applied update wallet =
      let (r, wallet') = apply_update P L H S W wallet update in
      (map_err RoundError.connect r, wallet')

  pub full_round : FullScanScriptInspector P S → Client P S → ℕ → Action State RoundError (Unit {0})
  full_round inspector client gap =
      start (start_full_scan P L H S W)
      >>= (λ h. on_requests λ w. built (inspect_spks_for_all_keychains P S inspector h w))
      >>= (λ h. on_requests λ w. built (World.build_full P S h w))
      >>= (λ h. on_requests (full_scan_by P S client gap h))
      >>= λ update. on_wallet (applied update)

  pub sync_round : SyncScriptInspector P S → Client P S → Action State RoundError (Unit {0})
  sync_round inspector client =
      start (start_sync_with_revealed_spks P L H S W)
      >>= (λ h. on_requests λ w. built (inspect_spks P S inspector h w))
      >>= (λ h. on_requests λ w. built (World.build_sync P S h w))
      >>= (λ h. on_requests (sync_by P S client h))
      >>= λ update. on_wallet (applied update)

  -- What is left of a round without the requests: the library's answer, and the wallet that it is applied to.
  abbrev pub conclude :
      Result (Update P S) RoundError → P.Wallet → Result (Unit {0}) RoundError × P.Wallet
  conclude (ok update) wallet = applied update wallet
  conclude (err e) wallet = (err e, wallet)
