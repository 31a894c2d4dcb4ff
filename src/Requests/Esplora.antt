-- ===== src/Requests/Esplora.antt =====
-- `EsploraClient::full_scan` and `sync` of bdk-ffi/src/esplora.rs.
use bdk_ffi.Prelude.{ℕ, none, some, Result, err, map_ok, map_err, cast}
use bdk_ffi.Extern.{Primitives}
use bdk_ffi.Errors.Esplora.{EsploraError, request_already_consumed}
use bdk_ffi.Errors.Esplora.Boxed.{from_esplora_box}
use bdk_ffi.Requests.Library.{ScanLibrary, FullScanResponse, SyncResponse, BdkUpdate}
use bdk_ffi.Requests.Cell.{take}
use bdk_ffi.Requests.World.{World}

module _ (P : Primitives) (L : ScanLibrary P) where
  abbrev pub Update : Type 0
  Update = BdkUpdate L.Indices L.TxUpdate L.ChainUpdate

  unfoldable pub full_update : FullScanResponse L.Indices L.TxUpdate L.ChainUpdate → Update
  full_update result = record {
    last_active_indices = result.last_active_indices;
    tx_update = result.tx_update;
    chain = result.chain_update;
  }

  unfoldable pub sync_update : SyncResponse L.TxUpdate L.ChainUpdate → Update
  sync_update result = record {
    last_active_indices = L.no_indices;
    tx_update = result.tx_update;
    chain = result.chain_update;
  }

  unfoldable pub full_scan :
      L.EsploraClient → ℕ → ℕ → ℕ → World P L → Result Update EsploraError × World P L
  full_scan client h stop_gap parallel_requests w =
      let (content, cells) = take h w.full_requests in
      let w' : World P L = record w { full_requests = cells } in
      elim content [
        | none ↦ (err request_already_consumed, w')
        | some request ↦ (
          map_ok full_update (
              map_err (from_esplora_box P) (
                L.esplora_full_scan client request (cast P.usize_bits stop_gap)
                  (cast P.usize_bits parallel_requests))),
          w',
        )
      ]

  unfoldable pub sync : L.EsploraClient → ℕ → ℕ → World P L → Result Update EsploraError × World P L
  sync client h parallel_requests w =
      let (content, cells) = take h w.sync_requests in
      let w' : World P L = record w { sync_requests = cells } in
      elim content [
        | none ↦ (err request_already_consumed, w')
        | some request ↦ (
          map_ok sync_update (
              map_err (from_esplora_box P)
                (L.esplora_sync client request (cast P.usize_bits parallel_requests))),
          w',
        )
      ]
