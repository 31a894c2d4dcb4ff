-- ===== src/Bitcoin/Address.antt =====
-- `Address` of bdk-ffi/src/bitcoin.rs, which wraps the library's checked address.
pub mod Validity
use bdk_ffi.Prelude.{Bool, false, String, Result, ok, err, map_err, ◌>>=◌}
use bdk_ffi.Extern.{Primitives}
use bdk_ffi.Errors.Address.{AddressParseError, BdkParseError, from_address_parse}
use bdk_ffi.Errors.FromScript.{FromScriptError, from_from_script}
use bdk_ffi.Bitcoin.Library.{BitcoinLibrary}

module _ (P : Primitives) (L : BitcoinLibrary P) where
  -- `Address::new`
  unfoldable pub new : String → L.Network → Result L.Address AddressParseError
  new address network =
      map_err (from_address_parse P) (L.parse_address address) >>= λ parsed_address.
      map_err (from_address_parse P) (L.require_network parsed_address network)

  unfoldable pub from_script : P.Script → L.Network → Result L.Address FromScriptError
  from_script script network = map_err (from_from_script P) (L.address_from_script script network)

  unfoldable pub script_pubkey : L.Address → P.Script
  script_pubkey address = L.address_script_pubkey address

  unfoldable pub to_qr_uri : L.Address → String
  to_qr_uri address = L.to_qr_uri address

  -- `is_valid_for_network`, from what the parser says of the printed address.
  unfoldable pub parsed_is_valid : Result L.Unchecked (BdkParseError P.Payload) → L.Network → Bool
  parsed_is_valid (ok unchecked_address) network = L.is_valid_for_network unchecked_address network
  parsed_is_valid (err _) network = false

  unfoldable pub is_valid_for_network : L.Address → L.Network → Bool
  unfolding parsed_is_valid
  is_valid_for_network address network =
      parsed_is_valid (L.parse_address (L.address_to_string address)) network

  -- `Display`
  unfoldable pub to_string : L.Address → String
  to_string address = L.address_to_string address
