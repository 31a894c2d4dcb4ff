-- ===== src/Requests/Electrum.antt =====
-- `ElectrumClient::full_scan` and `sync` of bdk-ffi/src/electrum.rs.
use bdk_ffi.Prelude.{ℕ, Bool, none, some, Result, err, map_ok, map_err, cast}
use bdk_ffi.Extern.{Primitives}
use bdk_ffi.Errors.Electrum.{ElectrumError, request_already_consumed, from_electrum}
use bdk_ffi.Requests.Library.{ScanLibrary, FullScanResponse, SyncResponse, BdkUpdate}
use bdk_ffi.Requests.Cell.{take}
use bdk_ffi.Requests.World.{World}

module _ (P : Primitives) (L : ScanLibrary P) where
  abbrev pub Update : Type 0
  Update = BdkUpdate L.Indices L.TxUpdate L.ChainUpdate

  unfoldable pub full_update : FullScanResponse L.Indices L.TxUpdate L.ChainUpdate → Update
  full_update full_scan_result = record {
    last_active_indices = full_scan_result.last_active_indices;
    tx_update = full_scan_result.tx_update;
    chain = full_scan_result.chain_update;
  }

  unfoldable pub sync_update : SyncResponse L.TxUpdate L.ChainUpdate → Update
  sync_update sync_result = record {
    last_active_indices = L.no_indices;
    tx_update = sync_result.tx_update;
    chain = sync_result.chain_update;
  }

  unfoldable pub full_scan :
      L.ElectrumClient → ℕ → ℕ → ℕ → Bool → World P L → Result Update ElectrumError × World P L
  full_scan client h stop_gap batch_size fetch_prev_txouts w =
      let (content, cells) = take h w.full_requests in
      let w' : World P L = record w { full_requests = cells } in
      elim content [
        | none ↦ (err request_already_consumed, w')
        | some request ↦ (
          map_ok full_update (
              map_err (from_electrum P) (
                L.electrum_full_scan client request (cast P.usize_bits stop_gap)
                  (cast P.usize_bits batch_size) fetch_prev_txouts)),
          w',
        )
      ]

  unfoldable pub sync :
      L.ElectrumClient → ℕ → ℕ → Bool → World P L → Result Update ElectrumError × World P L
  sync client h batch_size fetch_prev_txouts w =
      let (content, cells) = take h w.sync_requests in
      let w' : World P L = record w { sync_requests = cells } in
      elim content [
        | none ↦ (err request_already_consumed, w')
        | some request ↦ (
          map_ok sync_update (
              map_err (from_electrum P)
                (L.electrum_sync client request (cast P.usize_bits batch_size) fetch_prev_txouts)),
          w',
        )
      ]
