-- ===== src/Requests/World.antt =====
-- `FullScanRequestBuilder`, `SyncRequestBuilder`, `FullScanRequest` and `SyncRequest` of
-- bdk-ffi/src/types.rs as shared cells, with their methods and the two methods of `Wallet` that start a
-- scan. A method takes the handle of the object it is called on.
use bdk_ffi.Prelude.{ℕ, List, [], Option, none, some, Result, ok, err, cast}
use bdk_ffi.Extern.{Primitives, KeychainKind}
use bdk_ffi.Requests.Library.{ScanLibrary, SyncItem, spk, other}
use bdk_ffi.Requests.Cell.{take, alloc}

pub data RequestBuilderError : Type 0 where
  request_already_consumed : RequestBuilderError

module _ (P : Primitives) (L : ScanLibrary P) where
  pub record World : Type 0 where
    pub full_builders : List (Option L.FullScanRequestBuilder)
    pub sync_builders : List (Option L.SyncRequestBuilder)
    pub full_requests : List (Option L.FullScanRequest)
    pub sync_requests : List (Option L.SyncRequest)

  unfoldable pub start_full_scan : L.FullScanRequestBuilder → World → ℕ × World
  start_full_scan builder w =
      let (h, cells) = alloc builder w.full_builders in (h, record w { full_builders = cells })

  unfoldable pub start_sync_with_revealed_spks : L.SyncRequestBuilder → World → ℕ × World
  start_sync_with_revealed_spks builder w =
      let (h, cells) = alloc builder w.sync_builders in (h, record w { sync_builders = cells })

  -- `SyncScriptInspector` and `FullScanScriptInspector`: what the foreign code makes of a call.
  abbrev pub SyncScriptInspector : Type 0
  SyncScriptInspector = P.Script → ℕ → List L.Event

  abbrev pub FullScanScriptInspector : Type 0
  FullScanScriptInspector = KeychainKind → ℕ → P.Script → List L.Event

  -- The closure of `inspect_spks`: only scripts are shown, with the total of the progress.
  unfoldable pub spks_only : SyncScriptInspector → SyncItem P.Script → ℕ → List L.Event
  spks_only inspector (spk script) total = inspector script (cast 64 total)
  spks_only inspector other total = []

  unfoldable pub inspect_spks :
      SyncScriptInspector → ℕ → World → Result ℕ RequestBuilderError × World
  inspect_spks inspector h w =
      let (content, cells) = take h w.sync_builders in
      elim content [
        | none ↦ (err request_already_consumed, record w { sync_builders = cells })
        | some guard ↦
            let (h', cells') = alloc (L.inspect_sync (spks_only inspector) guard) cells in
            (ok h', record w { sync_builders = cells' })
      ]

  unfoldable pub build_sync : ℕ → World → Result ℕ RequestBuilderError × World
  build_sync h w =
      let (content, cells) = take h w.sync_builders in
      elim content [
        | none ↦ (err request_already_consumed, record w { sync_builders = cells })
        | some guard ↦
            let (h', requests) = alloc (L.build_sync guard) w.sync_requests in
            (ok h', record w { sync_builders = cells; sync_requests = requests })
      ]

  unfoldable pub inspect_spks_for_all_keychains :
      FullScanScriptInspector → ℕ → World → Result ℕ RequestBuilderError × World
  inspect_spks_for_all_keychains inspector h w =
      let (content, cells) = take h w.full_builders in
      elim content [
        | none ↦ (err request_already_consumed, record w { full_builders = cells })
        | some guard ↦
            let (h', cells') = alloc (L.inspect_full inspector guard) cells in
            (ok h', record w { full_builders = cells' })
      ]

  unfoldable pub build_full : ℕ → World → Result ℕ RequestBuilderError × World
  build_full h w =
      let (content, cells) = take h w.full_builders in
      elim content [
        | none ↦ (err request_already_consumed, record w { full_builders = cells })
        | some guard ↦
            let (h', requests) = alloc (L.build_full guard) w.full_requests in
            (ok h', record w { full_builders = cells; full_requests = requests })
      ]
