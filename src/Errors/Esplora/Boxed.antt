-- ===== src/Errors/Esplora/Boxed.antt =====
-- The conversion of a boxed `BdkEsploraError`, which bdk-ffi/src/error.rs writes out a second time.
use bdk_ffi.Prelude.{◌≡◌, refl}
use bdk_ffi.Extern.{Primitives}
use bdk_ffi.Errors.Esplora.{EsploraError, BdkEsploraError, from_esplora}

module _ (P : Primitives) where
  open P use {Payload, to_string}

  -- `impl From<Box<BdkEsploraError>> for EsploraError`
  unfoldable pub from_esplora_box : BdkEsploraError Payload → EsploraError
  from_esplora_box (BdkEsploraError.minreq e) = EsploraError.minreq (to_string e)
  from_esplora_box (BdkEsploraError.http_response status message) =
      EsploraError.http_response status message
  from_esplora_box (BdkEsploraError.parsing e) = EsploraError.parsing (to_string e)
  from_esplora_box (BdkEsploraError.status_code e) = EsploraError.status_code (to_string e)
  from_esplora_box (BdkEsploraError.bitcoin_encoding e) =
      EsploraError.bitcoin_encoding (to_string e)
  from_esplora_box (BdkEsploraError.hex_to_array e) = EsploraError.hex_to_array (to_string e)
  from_esplora_box (BdkEsploraError.hex_to_bytes e) = EsploraError.hex_to_bytes (to_string e)
  from_esplora_box (BdkEsploraError.transaction_not_found _) = EsploraError.transaction_not_found
  from_esplora_box (BdkEsploraError.header_height_not_found height) =
      EsploraError.header_height_not_found height
  from_esplora_box (BdkEsploraError.header_hash_not_found _) = EsploraError.header_hash_not_found
  from_esplora_box (BdkEsploraError.invalid_http_header_name name) =
      EsploraError.invalid_http_header_name name
  from_esplora_box (BdkEsploraError.invalid_http_header_value value) =
      EsploraError.invalid_http_header_value value
  from_esplora_box BdkEsploraError.invalid_response = EsploraError.invalid_response

  -- Boxed or not, an error of the Esplora client becomes the same error of the bindings.
  from_esplora_box-from_esplora :
      (e : BdkEsploraError Payload) → from_esplora_box e ≡ from_esplora P e
  unfolding from_esplora from_esplora_box
  from_esplora_box-from_esplora (BdkEsploraError.minreq e) = refl
  from_esplora_box-from_esplora _ = refl
