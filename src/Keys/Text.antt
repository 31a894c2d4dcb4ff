-- ===== src/Keys/Text.antt =====
-- Descriptor keys as texts: the parsers and printers of bdk-ffi/src/keys.rs, and what they ask of a public key.
use bdk_ffi.Prelude.{Bool, String, Result, map_err}
use bdk_ffi.Keys.Library.{KeyLibrary, BdkDescriptorSecretKey, BdkDescriptorPublicKey}
use bdk_ffi.Keys.Secret.{DescriptorKeyError, from_parse}

-- What the library reads and prints.
pub record TextLibrary (K : KeyLibrary) : Type 0 where
  pub secret_from_str : String → Result (BdkDescriptorSecretKey K) K.ParseError
  pub secret_to_string : BdkDescriptorSecretKey K → String
  pub public_from_str : String → Result (BdkDescriptorPublicKey K) K.ParseError
  pub public_to_string : BdkDescriptorPublicKey K → String
  pub public_is_multipath : BdkDescriptorPublicKey K → Bool
  pub public_master_fingerprint : BdkDescriptorPublicKey K → K.Fingerprint
  pub fingerprint_to_string : K.Fingerprint → String

module _ (K : KeyLibrary) (T : TextLibrary K) where
  -- `DescriptorSecretKey::from_string` and `as_string`
  unfoldable pub secret_from_string : String → Result (BdkDescriptorSecretKey K) DescriptorKeyError
  secret_from_string private_key = map_err (from_parse K) (T.secret_from_str private_key)

  unfoldable pub secret_as_string : BdkDescriptorSecretKey K → String
  secret_as_string key = T.secret_to_string key

  -- `DescriptorPublicKey::from_string`, `as_string`, `is_multipath` and `master_fingerprint`
  unfoldable pub public_from_string : String → Result (BdkDescriptorPublicKey K) DescriptorKeyError
  public_from_string public_key = map_err (from_parse K) (T.public_from_str public_key)

  unfoldable pub public_as_string : BdkDescriptorPublicKey K → String
  public_as_string key = T.public_to_string key

  unfoldable pub public_is_multipath : BdkDescriptorPublicKey K → Bool
  public_is_multipath key = T.public_is_multipath key

  unfoldable pub master_fingerprint : BdkDescriptorPublicKey K → String
  master_fingerprint key = T.fingerprint_to_string (T.public_master_fingerprint key)
