-- ===== src/Clients/Electrum.antt =====
-- `ElectrumClient` of bdk-ffi/src/electrum.rs without its scans, and `ServerFeaturesRes`.
use bdk_ffi.Prelude.{ℕ, String, Option, Result, map_ok, map_err, cast}
use bdk_ffi.Extern.{Primitives}
use bdk_ffi.Errors.Electrum.{ElectrumError, from_electrum}
use bdk_ffi.Bitcoin.Transaction.{Transaction}
use bdk_ffi.Requests.Library.{ScanLibrary}
use bdk_ffi.Views.Library.{HashLibrary}
use bdk_ffi.Clients.Library.{ClientLibrary, BdkServerFeaturesRes}

pub record ServerFeaturesRes : Type 0 where
  pub server_version : String
  pub genesis_hash : String
  pub protocol_min : String
  pub protocol_max : String
  pub hash_function : Option String
  pub pruning : Option ℕ

module _ (P : Primitives) (L : ScanLibrary P) (H : HashLibrary) (C : ClientLibrary P L H) where
  unfoldable pub new : String → Result L.ElectrumClient ElectrumError
  new url = map_err (from_electrum P) (C.electrum_new url)

  unfoldable pub transaction_broadcast :
      L.ElectrumClient → Transaction P → Result String ElectrumError
  transaction_broadcast client tx =
      map_ok P.txid_string (map_err (from_electrum P) (C.transaction_broadcast client tx))

  -- `impl From<BdkServerFeaturesRes> for ServerFeaturesRes`
  unfoldable pub from_server_features : BdkServerFeaturesRes → ServerFeaturesRes
  from_server_features value = record {
    server_version = value.server_version;
    genesis_hash = C.to_hex_string value.genesis_hash;
    protocol_min = value.protocol_min;
    protocol_max = value.protocol_max;
    hash_function = value.hash_function;
    pruning = value.pruning;
  }

  unfoldable pub server_features : L.ElectrumClient → Result ServerFeaturesRes ElectrumError
  unfolding from_server_features
  server_features client =
      map_ok from_server_features (map_err (from_electrum P) (C.server_features client))

  unfoldable pub estimate_fee : L.ElectrumClient → ℕ → Result C.Float ElectrumError
  estimate_fee client number =
      map_err (from_electrum P) (C.estimate_fee client (cast P.usize_bits number))
