-- ===== src/Descriptor.antt =====
-- `Descriptor` of bdk-ffi/src/descriptor.rs.
pub mod Templates
pub mod PublicTemplates
pub mod Single
use bdk_ffi.Prelude.{
  String, Bool, List, Option, none, some, Result, ok, err, map_ok, map_err, map, Outcome, returns,
  panics, unwrap, unwrap_some, and_then,
}
use bdk_ffi.Extern.{Primitives, KeychainKind}
use bdk_ffi.Errors.Descriptor.{DescriptorError, BdkDescriptorError, from_descriptor}
use bdk_ffi.Errors.Miniscript.{MiniscriptError, BdkMiniscriptError, from_miniscript}
use bdk_ffi.Keys.Library.{
  KeyLibrary, BdkDescriptorSecretKey, BdkDescriptorPublicKey, single, xprv, multi_xprv, xpub,
  multi_xpub,
}

-- The descriptors of the library. A template is built by one function for each kind of template.
pub record DescriptorLibrary (P : Primitives) (K : KeyLibrary) : Type 1 where
  pub ExtendedDescriptor : Type 0
  pub KeyMap : Type 0
  pub TemplateError : Type 0
  pub into_wallet_descriptor :
      String → K.Network → Result (ExtendedDescriptor × KeyMap) (BdkDescriptorError P.Payload)
  pub bip44 : K.Xprv → KeychainKind → K.Network → Result (ExtendedDescriptor × KeyMap) TemplateError
  pub bip44_public :
      K.Xpub
      → K.Fingerprint
      → KeychainKind
      → K.Network
      → Result (ExtendedDescriptor × KeyMap) TemplateError
  pub bip49 : K.Xprv → KeychainKind → K.Network → Result (ExtendedDescriptor × KeyMap) TemplateError
  pub bip49_public :
      K.Xpub
      → K.Fingerprint
      → KeychainKind
      → K.Network
      → Result (ExtendedDescriptor × KeyMap) TemplateError
  pub bip84 : K.Xprv → KeychainKind → K.Network → Result (ExtendedDescriptor × KeyMap) TemplateError
  pub bip84_public :
      K.Xpub
      → K.Fingerprint
      → KeychainKind
      → K.Network
      → Result (ExtendedDescriptor × KeyMap) TemplateError
  pub bip86 : K.Xprv → KeychainKind → K.Network → Result (ExtendedDescriptor × KeyMap) TemplateError
  pub bip86_public :
      K.Xpub
      → K.Fingerprint
      → KeychainKind
      → K.Network
      → Result (ExtendedDescriptor × KeyMap) TemplateError
  -- `Fingerprint::from_str`, which is unwrapped.
  pub parse_fingerprint : String → Option K.Fingerprint
  pub to_string_with_secret : ExtendedDescriptor → KeyMap → String
  pub to_string : ExtendedDescriptor → String
  pub is_multipath : ExtendedDescriptor → Bool
  pub into_single_descriptors :
      ExtendedDescriptor → Result (List ExtendedDescriptor) (BdkMiniscriptError P.Payload)

module _ (P : Primitives) (K : KeyLibrary) (D : DescriptorLibrary P K) where
  pub record Descriptor : Type 0 where
    pub extended_descriptor : D.ExtendedDescriptor
    pub key_map : D.KeyMap

  abbrev pub of_parts : D.ExtendedDescriptor × D.KeyMap → Descriptor
  of_parts (extended_descriptor, key_map) = record {
    extended_descriptor = extended_descriptor;
    key_map = key_map;
  }

  unfoldable pub new : String → K.Network → Result Descriptor DescriptorError
  new descriptor network =
      map_ok of_parts (map_err (from_descriptor P) (D.into_wallet_descriptor descriptor network))

  unfoldable pub new_bip44 :
      BdkDescriptorSecretKey K → KeychainKind → K.Network → Outcome Descriptor
  new_bip44 (single _) keychain_kind network = panics
  new_bip44 (xprv descriptor_x_key) keychain_kind network =
      and_then (unwrap (D.bip44 descriptor_x_key.xkey keychain_kind network))
        λ parts. returns (of_parts parts)
  new_bip44 (multi_xprv _) keychain_kind network = panics

  -- `new_bip44_public`, once the fingerprint is parsed.
  unfoldable pub templated_bip44 :
      BdkDescriptorPublicKey K → KeychainKind → K.Network → K.Fingerprint → Outcome Descriptor
  templated_bip44 (single _) keychain_kind network fingerprint = panics
  templated_bip44 (xpub descriptor_x_key) keychain_kind network fingerprint =
      and_then (unwrap (D.bip44_public descriptor_x_key.xkey fingerprint keychain_kind network))
        λ parts. returns (of_parts parts)
  templated_bip44 (multi_xpub _) keychain_kind network fingerprint = panics

  unfoldable pub new_bip44_public :
      BdkDescriptorPublicKey K → String → KeychainKind → K.Network → Outcome Descriptor
  unfolding templated_bip44
  new_bip44_public public_key fingerprint keychain_kind network =
      and_then (unwrap_some (D.parse_fingerprint fingerprint))
        (templated_bip44 public_key keychain_kind network)

  unfoldable pub new_bip49 :
      BdkDescriptorSecretKey K → KeychainKind → K.Network → Outcome Descriptor
  new_bip49 (single _) keychain_kind network = panics
  new_bip49 (xprv descriptor_x_key) keychain_kind network =
      and_then (unwrap (D.bip49 descriptor_x_key.xkey keychain_kind network))
        λ parts. returns (of_parts parts)
  new_bip49 (multi_xprv _) keychain_kind network = panics

  -- `new_bip49_public`, once the fingerprint is parsed.
  unfoldable pub templated_bip49 :
      BdkDescriptorPublicKey K → KeychainKind → K.Network → K.Fingerprint → Outcome Descriptor
  templated_bip49 (single _) keychain_kind network fingerprint = panics
  templated_bip49 (xpub descriptor_x_key) keychain_kind network fingerprint =
      and_then (unwrap (D.bip49_public descriptor_x_key.xkey fingerprint keychain_kind network))
        λ parts. returns (of_parts parts)
  templated_bip49 (multi_xpub _) keychain_kind network fingerprint = panics

  unfoldable pub new_bip49_public :
      BdkDescriptorPublicKey K → String → KeychainKind → K.Network → Outcome Descriptor
  unfolding templated_bip49
  new_bip49_public public_key fingerprint keychain_kind network =
      and_then (unwrap_some (D.parse_fingerprint fingerprint))
        (templated_bip49 public_key keychain_kind network)

  unfoldable pub new_bip84 :
      BdkDescriptorSecretKey K → KeychainKind → K.Network → Outcome Descriptor
  new_bip84 (single _) keychain_kind network = panics
  new_bip84 (xprv descriptor_x_key) keychain_kind network =
      and_then (unwrap (D.bip84 descriptor_x_key.xkey keychain_kind network))
        λ parts. returns (of_parts parts)
  new_bip84 (multi_xprv _) keychain_kind network = panics

  -- `new_bip84_public`, once the fingerprint is parsed.
  unfoldable pub templated_bip84 :
      BdkDescriptorPublicKey K → KeychainKind → K.Network → K.Fingerprint → Outcome Descriptor
  templated_bip84 (single _) keychain_kind network fingerprint = panics
  templated_bip84 (xpub descriptor_x_key) keychain_kind network fingerprint =
      and_then (unwrap (D.bip84_public descriptor_x_key.xkey fingerprint keychain_kind network))
        λ parts. returns (of_parts parts)
  templated_bip84 (multi_xpub _) keychain_kind network fingerprint = panics

  unfoldable pub new_bip84_public :
      BdkDescriptorPublicKey K → String → KeychainKind → K.Network → Outcome Descriptor
  unfolding templated_bip84
  new_bip84_public public_key fingerprint keychain_kind network =
      and_then (unwrap_some (D.parse_fingerprint fingerprint))
        (templated_bip84 public_key keychain_kind network)

  unfoldable pub new_bip86 :
      BdkDescriptorSecretKey K → KeychainKind → K.Network → Outcome Descriptor
  new_bip86 (single _) keychain_kind network = panics
  new_bip86 (xprv descriptor_x_key) keychain_kind network =
      and_then (unwrap (D.bip86 descriptor_x_key.xkey keychain_kind network))
        λ parts. returns (of_parts parts)
  new_bip86 (multi_xprv _) keychain_kind network = panics

  -- `new_bip86_public`, once the fingerprint is parsed.
  unfoldable pub templated_bip86 :
      BdkDescriptorPublicKey K → KeychainKind → K.Network → K.Fingerprint → Outcome Descriptor
  templated_bip86 (single _) keychain_kind network fingerprint = panics
  templated_bip86 (xpub descriptor_x_key) keychain_kind network fingerprint =
      and_then (unwrap (D.bip86_public descriptor_x_key.xkey fingerprint keychain_kind network))
        λ parts. returns (of_parts parts)
  templated_bip86 (multi_xpub _) keychain_kind network fingerprint = panics

  unfoldable pub new_bip86_public :
      BdkDescriptorPublicKey K → String → KeychainKind → K.Network → Outcome Descriptor
  unfolding templated_bip86
  new_bip86_public public_key fingerprint keychain_kind network =
      and_then (unwrap_some (D.parse_fingerprint fingerprint))
        (templated_bip86 public_key keychain_kind network)

  unfoldable pub to_string_with_secret : Descriptor → String
  to_string_with_secret d = D.to_string_with_secret d.extended_descriptor d.key_map

  -- `Display`
  unfoldable pub to_string : Descriptor → String
  to_string d = D.to_string d.extended_descriptor

  unfoldable pub is_multipath : Descriptor → Bool
  is_multipath d = D.is_multipath d.extended_descriptor

  unfoldable pub to_single_descriptors : Descriptor → Result (List Descriptor) MiniscriptError
  to_single_descriptors d =
      map_ok (map (λ desc. of_parts (desc, d.key_map)))
        (map_err (from_miniscript P) (D.into_single_descriptors d.extended_descriptor))
