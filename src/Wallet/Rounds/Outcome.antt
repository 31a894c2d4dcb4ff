-- ===== src/Wallet/Rounds/Outcome.antt =====
-- What a round comes to.
use bdk_ffi.Prelude.{ℕ, Result, ok, err, map_err, ◌≡◌, ap}
use bdk_ffi.Prelude.Actions.{resume}
use bdk_ffi.Extern.{Primitives}
use bdk_ffi.Bitcoin.Library.{BitcoinLibrary}
use bdk_ffi.Views.Library.{HashLibrary}
use bdk_ffi.Requests.Library.{ScanLibrary}
use bdk_ffi.Requests.Electrum.{Update}
use bdk_ffi.Requests.World.{World, FullScanScriptInspector, SyncScriptInspector, spks_only}
use bdk_ffi.Requests.Pipeline.{Answers, AnswersSync, full_scan_pipeline, sync_pipeline}
use bdk_ffi.Wallet.Library.{WalletLibrary}
use bdk_ffi.Wallet.Methods
use bdk_ffi.Wallet.Rounds.{
  RoundError, Client, State, full_scan_by, sync_by, full_answer, sync_answer, on_wallet, applied,
  conclude, full_round, sync_round,
}

module _ (P : Primitives) (S : ScanLibrary P) where
  full_scan_by-answer :
      (client : Client P S) (gap h : ℕ) (w : World P S) (request : S.FullScanRequest)
      → Answers P S request h w
      → (full_scan_by P S client gap h w).0 ≡ full_answer P S client gap request
  full_scan_by-answer (Client.electrum client batch fetch) gap h w request (electrum, esplora) =
      ap (map_err RoundError.electrum) (electrum client gap batch fetch)
  full_scan_by-answer (Client.esplora client parallel) gap h w request (electrum, esplora) =
      ap (map_err RoundError.esplora) (esplora client gap parallel)

  sync_by-answer :
      (client : Client P S) (h : ℕ) (w : World P S) (request : S.SyncRequest)
      → AnswersSync P S request h w
      → (sync_by P S client h w).0 ≡ sync_answer P S client request
  sync_by-answer (Client.electrum client batch fetch) h w request (electrum, esplora) =
      ap (map_err RoundError.electrum) (electrum client batch fetch)
  sync_by-answer (Client.esplora client parallel) h w request (electrum, esplora) =
      ap (map_err RoundError.esplora) (esplora client parallel)

module _ (P : Primitives) (L : BitcoinLibrary P) (H : HashLibrary) (S : ScanLibrary P)
    (W : WalletLibrary P L H S) where
  -- The result and the wallet.
  abbrev pub result_and_wallet :
      {A : Type 0} → Result A RoundError × State P L H S W → Result A RoundError × P.Wallet
  result_and_wallet (r, (wallet, w)) = (r, wallet)

  applied-conclude :
      (scanned : Result (Update P S) RoundError × World P S)
      (answer : Result (Update P S) RoundError) (wallet : P.Wallet)
      → scanned.0 ≡ answer
      → result_and_wallet (
          resume
            (λ update. on_wallet P L H S W (applied P L H S W update))
            (scanned.0, (wallet, scanned.1)))
        ≡ conclude P L H S W answer wallet
  applied-conclude (ok update, w) answer wallet e = ap (λ r. conclude P L H S W r wallet) e
  applied-conclude (err error, w) answer wallet e = ap (λ r. conclude P L H S W r wallet) e

  -- A round that starts a full scan of the wallet, has it inspected, builds the request, hands it to
  -- either client and applies the update does not fail on the way for want of a request, whatever other
  -- requests there are: its result and its wallet are those of the library's own answer to the request
  -- that it builds from the wallet's scan with that inspector, with the numbers cut to `usize`, applied
  -- to the wallet if it is a response, and with every error converted.
  pub full_round-conclude :
      (inspector : FullScanScriptInspector P S) (client : Client P S) (gap : ℕ) (wallet : P.Wallet)
      (w : World P S)
      → result_and_wallet (full_round P L H S W inspector client gap (wallet, w))
        ≡ conclude P L H S W
            (full_answer P S client gap
              (S.build_full (S.inspect_full inspector (W.start_full_scan wallet))))
            wallet
  unfolding full_round Methods.start_full_scan
  full_round-conclude inspector client gap wallet w =
      let (h2, h3, w2, w3, inspected, built, answers) =
        full_scan_pipeline P S (W.start_full_scan wallet) inspector w in
      rw (inspected, built)
        (applied-conclude (full_scan_by P S client gap h3 w3) (full_answer P S client gap _) wallet
          (full_scan_by-answer P S client gap h3 w3 _ answers))

  -- A round that starts a sync of the revealed scripts, has it inspected, builds the request, hands it
  -- to either client and applies the update does not fail on the way for want of a request, whatever
  -- other requests there are: its result and its wallet are those of the library's own answer to the
  -- request that it builds from the wallet's sync with the inspector that is shown scripts only, with
  -- the number cut to `usize`, applied to the wallet if it is a response, and with every error
  -- converted.
  pub sync_round-conclude :
      (inspector : SyncScriptInspector P S) (client : Client P S) (wallet : P.Wallet)
      (w : World P S)
      → result_and_wallet (sync_round P L H S W inspector client (wallet, w))
        ≡ conclude P L H S W
            (sync_answer P S client (
              S.build_sync (
                S.inspect_sync (spks_only P S inspector) (W.start_sync_with_revealed_spks wallet))))
            wallet
  unfolding sync_round Methods.start_sync_with_revealed_spks
  sync_round-conclude inspector client wallet w =
      let (h2, h3, w2, w3, inspected, built, answers) =
        sync_pipeline P S (W.start_sync_with_revealed_spks wallet) inspector w in
      rw (inspected, built)
        (applied-conclude (sync_by P S client h3 w3) (sync_answer P S client _) wallet
          (sync_by-answer P S client h3 w3 _ answers))
