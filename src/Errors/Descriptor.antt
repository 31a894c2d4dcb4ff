-- ===== src/Errors/Descriptor.antt =====
-- `DescriptorError` of bdk-ffi/src/error.rs, the library's error that it stands for, and the conversion.
use bdk_ffi.Prelude.{String}
use bdk_ffi.Extern.{Primitives}

-- `DescriptorError`
pub data DescriptorError : Type 0 where
  invalid_hd_key_path : DescriptorError
  invalid_descriptor_checksum : DescriptorError
  hardened_derivation_xpub : DescriptorError
  multi_path : DescriptorError
  key : String → DescriptorError
  policy : String → DescriptorError
  invalid_descriptor_character : String → DescriptorError
  bip32 : String → DescriptorError
  base58 : String → DescriptorError
  pk : String → DescriptorError
  miniscript : String → DescriptorError
  hex : String → DescriptorError
  external_and_internal_are_the_same : DescriptorError

-- The library's error, over what its variants carry.
pub data BdkDescriptorError (V : Type 0) : Type 0 where
  invalid_hd_key_path : BdkDescriptorError V
  invalid_descriptor_checksum : BdkDescriptorError V
  hardened_derivation_xpub : BdkDescriptorError V
  multi_path : BdkDescriptorError V
  key : V → BdkDescriptorError V
  policy : V → BdkDescriptorError V
  invalid_descriptor_character : V → BdkDescriptorError V
  bip32 : V → BdkDescriptorError V
  base58 : V → BdkDescriptorError V
  pk : V → BdkDescriptorError V
  miniscript : V → BdkDescriptorError V
  hex : V → BdkDescriptorError V
  external_and_internal_are_the_same : BdkDescriptorError V

module _ (P : Primitives) where
  open P use {Payload, to_string}

  -- `impl From<BdkDescriptorError> for DescriptorError`
  unfoldable pub from_descriptor : BdkDescriptorError Payload → DescriptorError
  from_descriptor BdkDescriptorError.invalid_hd_key_path = DescriptorError.invalid_hd_key_path
  from_descriptor BdkDescriptorError.invalid_descriptor_checksum =
      DescriptorError.invalid_descriptor_checksum
  from_descriptor BdkDescriptorError.hardened_derivation_xpub =
      DescriptorError.hardened_derivation_xpub
  from_descriptor BdkDescriptorError.multi_path = DescriptorError.multi_path
  from_descriptor (BdkDescriptorError.key e) = DescriptorError.key (to_string e)
  from_descriptor (BdkDescriptorError.policy e) = DescriptorError.policy (to_string e)
  from_descriptor (BdkDescriptorError.invalid_descriptor_character char) =
      DescriptorError.invalid_descriptor_character (to_string char)
  from_descriptor (BdkDescriptorError.bip32 e) = DescriptorError.bip32 (to_string e)
  from_descriptor (BdkDescriptorError.base58 e) = DescriptorError.base58 (to_string e)
  from_descriptor (BdkDescriptorError.pk e) = DescriptorError.pk (to_string e)
  from_descriptor (BdkDescriptorError.miniscript e) = DescriptorError.miniscript (to_string e)
  from_descriptor (BdkDescriptorError.hex e) = DescriptorError.hex (to_string e)
  from_descriptor BdkDescriptorError.external_and_internal_are_the_same =
      DescriptorError.external_and_internal_are_the_same
