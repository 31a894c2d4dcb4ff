-- ===== src/Errors/Esplora.antt =====
-- `EsploraError` of bdk-ffi/src/error.rs, the library's error that it stands for, and the conversion.
pub mod Boxed
use bdk_ffi.Prelude.{ℕ, String}
use bdk_ffi.Extern.{Primitives}

-- `EsploraError`
pub data EsploraError : Type 0 where
  minreq : String → EsploraError
  http_response : ℕ → String → EsploraError
  parsing : String → EsploraError
  status_code : String → EsploraError
  bitcoin_encoding : String → EsploraError
  hex_to_array : String → EsploraError
  hex_to_bytes : String → EsploraError
  transaction_not_found : EsploraError
  header_height_not_found : ℕ → EsploraError
  header_hash_not_found : EsploraError
  invalid_http_header_name : String → EsploraError
  invalid_http_header_value : String → EsploraError
  request_already_consumed : EsploraError
  invalid_response : EsploraError

-- The library's error, over what its variants carry.
pub data BdkEsploraError (V : Type 0) : Type 0 where
  minreq : V → BdkEsploraError V
  http_response : ℕ → String → BdkEsploraError V
  parsing : V → BdkEsploraError V
  status_code : V → BdkEsploraError V
  bitcoin_encoding : V → BdkEsploraError V
  hex_to_array : V → BdkEsploraError V
  hex_to_bytes : V → BdkEsploraError V
  transaction_not_found : V → BdkEsploraError V
  header_height_not_found : ℕ → BdkEsploraError V
  header_hash_not_found : V → BdkEsploraError V
  invalid_http_header_name : String → BdkEsploraError V
  invalid_http_header_value : String → BdkEsploraError V
  invalid_response : BdkEsploraError V

module _ (P : Primitives) where
  open P use {Payload, to_string}

  -- `impl From<BdkEsploraError> for EsploraError`
  unfoldable pub from_esplora : BdkEsploraError Payload → EsploraError
  from_esplora (BdkEsploraError.minreq e) = EsploraError.minreq (to_string e)
  from_esplora (BdkEsploraError.http_response status message) =
      EsploraError.http_response status message
  from_esplora (BdkEsploraError.parsing e) = EsploraError.parsing (to_string e)
  from_esplora (BdkEsploraError.status_code e) = EsploraError.status_code (to_string e)
  from_esplora (BdkEsploraError.bitcoin_encoding e) = EsploraError.bitcoin_encoding (to_string e)
  from_esplora (BdkEsploraError.hex_to_array e) = EsploraError.hex_to_array (to_string e)
  from_esplora (BdkEsploraError.hex_to_bytes e) = EsploraError.hex_to_bytes (to_string e)
  from_esplora (BdkEsploraError.transaction_not_found _) = EsploraError.transaction_not_found
  from_esplora (BdkEsploraError.header_height_not_found height) =
      EsploraError.header_height_not_found height
  from_esplora (BdkEsploraError.header_hash_not_found _) = EsploraError.header_hash_not_found
  from_esplora (BdkEsploraError.invalid_http_header_name name) =
      EsploraError.invalid_http_header_name name
  from_esplora (BdkEsploraError.invalid_http_header_value value) =
      EsploraError.invalid_http_header_value value
  from_esplora BdkEsploraError.invalid_response = EsploraError.invalid_response
