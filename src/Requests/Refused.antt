-- ===== src/Requests/Refused.antt =====
-- What it means that an object is used up: every call that would take its content fails, without effect.
use bdk_ffi.Prelude.{ℕ, Bool, ◌≡◌, err}
use bdk_ffi.Extern.{Primitives}
use bdk_ffi.Errors.Electrum.{ElectrumError}
use bdk_ffi.Errors.Esplora.{EsploraError}
use bdk_ffi.Requests.Library.{ScanLibrary}
use bdk_ffi.Requests.Cell.{Consumed, take-Consumed}
use bdk_ffi.Requests.World.{
  World, SyncScriptInspector, FullScanScriptInspector, request_already_consumed, inspect_spks,
  inspect_spks_for_all_keychains, spks_only,
}
use bdk_ffi.Requests.World
use bdk_ffi.Requests.Electrum
use bdk_ffi.Requests.Esplora

module _ (P : Primitives) (L : ScanLibrary P) where
  -- Every attempt to scan the request fails and changes nothing.
  abbrev pub FullScanRefused : ℕ → World P L → Type 0
  FullScanRefused h w =
      ((client : L.ElectrumClient) (gap batch : ℕ) (fetch : Bool)
        → Electrum.full_scan P L client h gap batch fetch w
          ≡ (err ElectrumError.request_already_consumed, w))
      × ((client : L.EsploraClient) (gap parallel : ℕ)
          → Esplora.full_scan P L client h gap parallel w
            ≡ (err EsploraError.request_already_consumed, w))

  abbrev pub SyncRefused : ℕ → World P L → Type 0
  SyncRefused h w =
      ((client : L.ElectrumClient) (batch : ℕ) (fetch : Bool)
        → Electrum.sync P L client h batch fetch w
          ≡ (err ElectrumError.request_already_consumed, w))
      × ((client : L.EsploraClient) (parallel : ℕ)
          → Esplora.sync P L client h parallel w ≡ (err EsploraError.request_already_consumed, w))

  -- Every use of the builder fails and changes nothing.
  abbrev pub FullBuilderRefused : ℕ → World P L → Type 0
  FullBuilderRefused h w =
      ((inspector : FullScanScriptInspector P L)
        → inspect_spks_for_all_keychains P L inspector h w ≡ (err request_already_consumed, w))
      × (World.build_full P L h w ≡ (err request_already_consumed, w))

  abbrev pub SyncBuilderRefused : ℕ → World P L → Type 0
  SyncBuilderRefused h w =
      ((inspector : SyncScriptInspector P L)
        → inspect_spks P L inspector h w ≡ (err request_already_consumed, w))
      × (World.build_sync P L h w ≡ (err request_already_consumed, w))

  pub FullScanRefused-of_Consumed :
      (h : ℕ) (w : World P L) → Consumed h w.full_requests → FullScanRefused h w
  unfolding Electrum.full_scan Esplora.full_scan
  FullScanRefused-of_Consumed h w c = (
    λ client gap batch fetch.
        rw (take-Consumed h w.full_requests c, Electrum.full_scan)
          (rw (take-Consumed h w.full_requests c)),
    λ client gap parallel.
        rw (take-Consumed h w.full_requests c, Esplora.full_scan)
          (rw (take-Consumed h w.full_requests c)),
  )

  pub SyncRefused-of_Consumed :
      (h : ℕ) (w : World P L) → Consumed h w.sync_requests → SyncRefused h w
  unfolding Electrum.sync Esplora.sync
  SyncRefused-of_Consumed h w c = (
    λ client batch fetch.
        rw (take-Consumed h w.sync_requests c, Electrum.sync)
          (rw (take-Consumed h w.sync_requests c)),
    λ client parallel.
        rw (take-Consumed h w.sync_requests c, Esplora.sync)
          (rw (take-Consumed h w.sync_requests c)),
  )

  pub FullBuilderRefused-of_Consumed :
      (h : ℕ) (w : World P L) → Consumed h w.full_builders → FullBuilderRefused h w
  unfolding inspect_spks_for_all_keychains World.build_full
  FullBuilderRefused-of_Consumed h w c = (
    λ inspector.
        rw (take-Consumed h w.full_builders c, inspect_spks_for_all_keychains)
          (rw (take-Consumed h w.full_builders c)),
    rw (take-Consumed h w.full_builders c, World.build_full)
        (rw (take-Consumed h w.full_builders c)),
  )

  pub SyncBuilderRefused-of_Consumed :
      (h : ℕ) (w : World P L) → Consumed h w.sync_builders → SyncBuilderRefused h w
  unfolding inspect_spks World.build_sync
  SyncBuilderRefused-of_Consumed h w c = (
    λ inspector.
        rw (take-Consumed h w.sync_builders c, inspect_spks)
          (rw (take-Consumed h w.sync_builders c)),
    rw (take-Consumed h w.sync_builders c, World.build_sync)
        (rw (take-Consumed h w.sync_builders c)),
  )
