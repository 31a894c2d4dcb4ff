-- ===== src/Requests/Commands.antt =====
-- Any interleaving of the calls that foreign code makes on request builders, requests and clients, as a
-- list of commands on the shared cells.
use bdk_ffi.Prelude.{ℕ, Bool, List, [], ◌∷◌}
use bdk_ffi.Extern.{Primitives}
use bdk_ffi.Requests.Library.{ScanLibrary}
use bdk_ffi.Requests.World.{
  World, SyncScriptInspector, FullScanScriptInspector, start_full_scan,
  start_sync_with_revealed_spks, inspect_spks, inspect_spks_for_all_keychains,
}
use bdk_ffi.Requests.World
use bdk_ffi.Requests.Electrum
use bdk_ffi.Requests.Esplora

module _ (P : Primitives) (L : ScanLibrary P) where
  pub data Command : Type 0 where
    start_full : L.FullScanRequestBuilder → Command
    start_sync : L.SyncRequestBuilder → Command
    inspect_full : FullScanScriptInspector P L → ℕ → Command
    inspect_sync : SyncScriptInspector P L → ℕ → Command
    build_full : ℕ → Command
    build_sync : ℕ → Command
    electrum_full : L.ElectrumClient → ℕ → ℕ → ℕ → Bool → Command
    electrum_sync : L.ElectrumClient → ℕ → ℕ → Bool → Command
    esplora_full : L.EsploraClient → ℕ → ℕ → ℕ → Command
    esplora_sync : L.EsploraClient → ℕ → ℕ → Command

  unfoldable pub step : Command → World P L → World P L
  unfolding start_full_scan start_sync_with_revealed_spks inspect_spks
      inspect_spks_for_all_keychains World.build_full World.build_sync Electrum.full_scan
      Electrum.sync Esplora.full_scan Esplora.sync
  step (start_full builder) w = (start_full_scan P L builder w).1
  step (start_sync builder) w = (start_sync_with_revealed_spks P L builder w).1
  step (inspect_full inspector h) w = (inspect_spks_for_all_keychains P L inspector h w).1
  step (inspect_sync inspector h) w = (inspect_spks P L inspector h w).1
  step (build_full h) w = (World.build_full P L h w).1
  step (build_sync h) w = (World.build_sync P L h w).1
  step (electrum_full client h gap batch fetch) w =
      (Electrum.full_scan P L client h gap batch fetch w).1
  step (electrum_sync client h batch fetch) w = (Electrum.sync P L client h batch fetch w).1
  step (esplora_full client h gap parallel) w = (Esplora.full_scan P L client h gap parallel w).1
  step (esplora_sync client h parallel) w = (Esplora.sync P L client h parallel w).1

  unfoldable pub run : List Command → World P L → World P L
  run [] w = w
  run (c ∷ cs) w = run cs (step c w)
