-- ===== src/Errors/Bip32.antt =====
-- `Bip32Error` of bdk-ffi/src/error.rs, the library's error that it stands for, and the conversion.
use Prim.Native.String.{◌++◌ as ◌<>◌}
use bdk_ffi.Prelude.{ℕ, String, cast}
use bdk_ffi.Extern.{Primitives}

pub data Bip32Error : Type 0 where
  cannot_derive_from_hardened_key : Bip32Error
  secp256k1 : String → Bip32Error
  invalid_child_number : ℕ → Bip32Error
  invalid_child_number_format invalid_derivation_path_format : Bip32Error
  unknown_version : String → Bip32Error
  wrong_extended_key_length : ℕ → Bip32Error
  base58 hex : String → Bip32Error
  invalid_public_key_hex_length : ℕ → Bip32Error
  unknown_error : String → Bip32Error

-- The library's error, over what its variants carry; it may have more variants, which `other` stands for, with the
-- error as a whole.
pub data BdkBip32Error (V : Type 0) : Type 0 where
  cannot_derive_from_hardened_key : BdkBip32Error V
  secp256k1 : V → BdkBip32Error V
  invalid_child_number : ℕ → BdkBip32Error V
  invalid_child_number_format invalid_derivation_path_format : BdkBip32Error V
  unknown_version : V → BdkBip32Error V
  wrong_extended_key_length : ℕ → BdkBip32Error V
  base58 hex : V → BdkBip32Error V
  invalid_public_key_hex_length : ℕ → BdkBip32Error V
  other : V → BdkBip32Error V

module _ (P : Primitives) where
  open P use {Payload, to_string, debug, lower_hex}

  -- `impl From<BdkBip32Error> for Bip32Error`
  unfoldable pub from_bip32_error : BdkBip32Error Payload → Bip32Error
  from_bip32_error BdkBip32Error.cannot_derive_from_hardened_key =
      Bip32Error.cannot_derive_from_hardened_key
  from_bip32_error (BdkBip32Error.secp256k1 e) = Bip32Error.secp256k1 (to_string e)
  from_bip32_error (BdkBip32Error.invalid_child_number num) = Bip32Error.invalid_child_number num
  from_bip32_error BdkBip32Error.invalid_child_number_format =
      Bip32Error.invalid_child_number_format
  from_bip32_error BdkBip32Error.invalid_derivation_path_format =
      Bip32Error.invalid_derivation_path_format
  from_bip32_error (BdkBip32Error.unknown_version bytes) =
      Bip32Error.unknown_version (lower_hex bytes)
  from_bip32_error (BdkBip32Error.wrong_extended_key_length len) =
      Bip32Error.wrong_extended_key_length (cast 32 len)
  from_bip32_error (BdkBip32Error.base58 e) = Bip32Error.base58 (to_string e)
  from_bip32_error (BdkBip32Error.hex e) = Bip32Error.hex (to_string e)
  from_bip32_error (BdkBip32Error.invalid_public_key_hex_length len) =
      Bip32Error.invalid_public_key_hex_length (cast 32 len)
  from_bip32_error (BdkBip32Error.other error) = unknown_error ("Unhandled error: " <> debug error)
