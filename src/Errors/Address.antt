-- ===== src/Errors/Address.antt =====
-- `AddressParseError` of bdk-ffi/src/error.rs, the library's error that it stands for, and the conversion.
use bdk_ffi.Prelude.{String}
use bdk_ffi.Extern.{Primitives}

-- `AddressParseError`
pub data AddressParseError : Type 0 where
  base58 : AddressParseError
  bech32 : AddressParseError
  witness_version : String → AddressParseError
  witness_program : String → AddressParseError
  unknown_hrp : AddressParseError
  legacy_address_too_long : AddressParseError
  invalid_base58_payload_length : AddressParseError
  invalid_legacy_prefix : AddressParseError
  network_validation : AddressParseError
  other_address_parse_err : AddressParseError

-- The library's error, over what its variants carry; it may have more variants, which `other` stands for, with the error
-- as a whole.
pub data BdkParseError (V : Type 0) : Type 0 where
  base58 : V → BdkParseError V
  bech32 : V → BdkParseError V
  witness_version : V → BdkParseError V
  witness_program : V → BdkParseError V
  unknown_hrp : V → BdkParseError V
  legacy_address_too_long : V → BdkParseError V
  invalid_base58_payload_length : V → BdkParseError V
  invalid_legacy_prefix : V → BdkParseError V
  network_validation : V → BdkParseError V
  other : V → BdkParseError V

module _ (P : Primitives) where
  open P use {Payload, to_string}

  -- `impl From<BdkParseError> for AddressParseError`
  unfoldable pub from_address_parse : BdkParseError Payload → AddressParseError
  from_address_parse (BdkParseError.base58 _) = AddressParseError.base58
  from_address_parse (BdkParseError.bech32 _) = AddressParseError.bech32
  from_address_parse (BdkParseError.witness_version e) =
      AddressParseError.witness_version (to_string e)
  from_address_parse (BdkParseError.witness_program e) =
      AddressParseError.witness_program (to_string e)
  from_address_parse (BdkParseError.unknown_hrp _) = AddressParseError.unknown_hrp
  from_address_parse (BdkParseError.legacy_address_too_long _) =
      AddressParseError.legacy_address_too_long
  from_address_parse (BdkParseError.invalid_base58_payload_length _) =
      AddressParseError.invalid_base58_payload_length
  from_address_parse (BdkParseError.invalid_legacy_prefix _) =
      AddressParseError.invalid_legacy_prefix
  from_address_parse (BdkParseError.network_validation _) = AddressParseError.network_validation
  from_address_parse (BdkParseError.other _) = AddressParseError.other_address_parse_err
