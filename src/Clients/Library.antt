-- ===== src/Clients/Library.antt =====
-- What the queries use of the two client libraries, which are not part of the repository. A client is asked over the
-- network, so each function is the answer that it gives.
use bdk_ffi.Prelude.{ℕ, String, List, Option, Result}
use bdk_ffi.Extern.{Primitives}
use bdk_ffi.Errors.Electrum.{BdkElectrumError}
use bdk_ffi.Errors.Esplora.{BdkEsploraError}
use bdk_ffi.Bitcoin.Library.{BdkTransaction}
use bdk_ffi.Requests.Library.{ScanLibrary}
use bdk_ffi.Views.Library.{HashLibrary, BdkTx, BdkTxStatus}

-- `electrum_client::ServerFeaturesRes`: a pruning limit is an `i64`, by its 64 bits.
pub record BdkServerFeaturesRes : Type 0 where
  pub server_version : String
  pub genesis_hash : List ℕ
  pub protocol_min : String
  pub protocol_max : String
  pub hash_function : Option String
  pub pruning : Option ℕ

pub record ClientLibrary (P : Primitives) (L : ScanLibrary P) (H : HashLibrary) : Type 1 where
  -- `f64`
  pub Float : Type 0
  -- `Txid::from_str`, with its error.
  pub txid_from_str : String → Result P.Txid P.Payload
  -- `DisplayHex::to_hex_string(Case::Lower)` of a block hash.
  pub to_hex_string : List ℕ → String
  pub electrum_new : String → Result L.ElectrumClient (BdkElectrumError P.Payload)
  pub transaction_broadcast :
      L.ElectrumClient → BdkTransaction P → Result P.Txid (BdkElectrumError P.Payload)
  pub server_features : L.ElectrumClient → Result BdkServerFeaturesRes (BdkElectrumError P.Payload)
  pub estimate_fee : L.ElectrumClient → ℕ → Result Float (BdkElectrumError P.Payload)
  pub esplora_new : String → L.EsploraClient
  pub broadcast : L.EsploraClient → BdkTransaction P → Result (Unit {0}) (BdkEsploraError P.Payload)
  pub get_tx :
      L.EsploraClient → P.Txid → Result (Option (BdkTransaction P)) (BdkEsploraError P.Payload)
  pub get_height : L.EsploraClient → Result ℕ (BdkEsploraError P.Payload)
  pub get_fee_estimates : L.EsploraClient → Result (List (ℕ × Float)) (BdkEsploraError P.Payload)
  pub get_block_hash : L.EsploraClient → ℕ → Result H.BlockHash (BdkEsploraError P.Payload)
  pub get_tx_status : L.EsploraClient → P.Txid → Result (BdkTxStatus H) (BdkEsploraError P.Payload)
  pub get_tx_info :
      L.EsploraClient → P.Txid → Result (Option (BdkTx P H)) (BdkEsploraError P.Payload)
