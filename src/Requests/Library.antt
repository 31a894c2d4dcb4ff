-- ===== src/Requests/Library.antt =====
-- What the scans use of the library: its request builders and requests, the two network clients, and
-- what they answer. None of this is part of the repository.
use bdk_ffi.Prelude.{ℕ, Bool, List, Option, Result}
use bdk_ffi.Extern.{Primitives, KeychainKind}
use bdk_ffi.Errors.Electrum.{BdkElectrumError}
use bdk_ffi.Errors.Esplora.{BdkEsploraError}

-- `bdk_core::spk_client::SyncItem`: a script to check, or something else.
pub data SyncItem (Script : Type 0) : Type 0 where
  spk : Script → SyncItem Script
  other : SyncItem Script

-- `FullScanResponse`, `SyncResponse` and `bdk_wallet::Update`.
pub record FullScanResponse (Indices TxUpdate ChainUpdate : Type 0) : Type 0 where
  pub last_active_indices : Indices
  pub tx_update : TxUpdate
  pub chain_update : Option ChainUpdate

pub record SyncResponse (TxUpdate ChainUpdate : Type 0) : Type 0 where
  pub tx_update : TxUpdate
  pub chain_update : Option ChainUpdate

pub record BdkUpdate (Indices TxUpdate ChainUpdate : Type 0) : Type 0 where
  pub last_active_indices : Indices
  pub tx_update : TxUpdate
  pub chain : Option ChainUpdate

pub record ScanLibrary (P : Primitives) : Type 1 where
  pub FullScanRequestBuilder : Type 0
  pub SyncRequestBuilder : Type 0
  pub FullScanRequest : Type 0
  pub SyncRequest : Type 0
  -- What an inspector of the foreign language is told.
  pub Event : Type 0
  pub inspect_full :
      (KeychainKind → ℕ → P.Script → List Event) → FullScanRequestBuilder → FullScanRequestBuilder
  pub inspect_sync : (SyncItem P.Script → ℕ → List Event) → SyncRequestBuilder → SyncRequestBuilder
  pub build_full : FullScanRequestBuilder → FullScanRequest
  pub build_sync : SyncRequestBuilder → SyncRequest
  pub Indices : Type 0
  pub TxUpdate : Type 0
  pub ChainUpdate : Type 0
  -- `BTreeMap::default()`
  pub no_indices : Indices
  pub ElectrumClient : Type 0
  pub electrum_full_scan :
      ElectrumClient
      → FullScanRequest
      → ℕ
      → ℕ
      → Bool
      → Result (FullScanResponse Indices TxUpdate ChainUpdate) (BdkElectrumError P.Payload)
  pub electrum_sync :
      ElectrumClient
      → SyncRequest
      → ℕ
      → Bool
      → Result (SyncResponse TxUpdate ChainUpdate) (BdkElectrumError P.Payload)
  -- The error of the Esplora client is boxed.
  pub EsploraClient : Type 0
  pub esplora_full_scan :
      EsploraClient
      → FullScanRequest
      → ℕ
      → ℕ
      → Result (FullScanResponse Indices TxUpdate ChainUpdate) (BdkEsploraError P.Payload)
  pub esplora_sync :
      EsploraClient
      → SyncRequest
      → ℕ
      → Result (SyncResponse TxUpdate ChainUpdate) (BdkEsploraError P.Payload)
