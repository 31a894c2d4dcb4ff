-- ===== src/Clients/Esplora.antt =====
-- `EsploraClient` of bdk-ffi/src/esplora.rs without its scans.
use mathlib.Core.Option
use bdk_ffi.Prelude.{ℕ, String, List, Option, Result, map_ok, map_err, ◌>>=◌}
use bdk_ffi.Extern.{Primitives}
use bdk_ffi.Errors.Esplora.{EsploraError, from_esplora}
use bdk_ffi.Errors.Small.{from_hex_to_array}
use bdk_ffi.Bitcoin.Transaction.{Transaction}
use bdk_ffi.Requests.Library.{ScanLibrary}
use bdk_ffi.Views.Library.{HashLibrary}
use bdk_ffi.Views.Records.{Tx, TxStatus, from_tx, from_tx_status}
use bdk_ffi.Clients.Library.{ClientLibrary}

module _ (P : Primitives) (L : ScanLibrary P) (H : HashLibrary) (C : ClientLibrary P L H) where
  unfoldable pub new : String → L.EsploraClient
  new url = C.esplora_new url

  unfoldable pub broadcast : L.EsploraClient → Transaction P → Result (Unit {0}) EsploraError
  broadcast client transaction = map_err (from_esplora P) (C.broadcast client transaction)

  -- `Txid::from_str(&txid)?`
  abbrev pub parsed_txid : String → Result P.Txid EsploraError
  parsed_txid txid = map_err (from_hex_to_array P) (C.txid_from_str txid)

  unfoldable pub get_tx : L.EsploraClient → String → Result (Option (Transaction P)) EsploraError
  unfolding from_hex_to_array
  get_tx client txid = parsed_txid txid >>= λ id. map_err (from_esplora P) (C.get_tx client id)

  unfoldable pub get_height : L.EsploraClient → Result ℕ EsploraError
  get_height client = map_err (from_esplora P) (C.get_height client)

  unfoldable pub get_fee_estimates : L.EsploraClient → Result (List (ℕ × C.Float)) EsploraError
  get_fee_estimates client = map_err (from_esplora P) (C.get_fee_estimates client)

  unfoldable pub get_block_hash : L.EsploraClient → ℕ → Result String EsploraError
  get_block_hash client block_height =
      map_err (from_esplora P) (map_ok H.block_hash_string (C.get_block_hash client block_height))

  unfoldable pub get_tx_status : L.EsploraClient → String → Result TxStatus EsploraError
  unfolding from_hex_to_array from_tx_status
  get_tx_status client txid = parsed_txid txid >>= λ id.
      map_err (from_esplora P) (map_ok (from_tx_status P H) (C.get_tx_status client id))

  unfoldable pub get_tx_info : L.EsploraClient → String → Result (Option Tx) EsploraError
  unfolding from_hex_to_array from_tx
  get_tx_info client txid = parsed_txid txid >>= λ id.
      map_err (from_esplora P) (map_ok (Option.map (from_tx P H)) (C.get_tx_info client id))
