-- ===== src/Keys/Public.antt =====
-- `DescriptorPublicKey` of bdk-ffi/src/keys.rs.
use bdk_ffi.Prelude.{some, Result, ok, err, map_err, ◌>>=◌}
use bdk_ffi.Keys.Library.{KeyLibrary, BdkDescriptorPublicKey, single, xpub, multi_xpub}
use bdk_ffi.Keys.Secret.{DescriptorKeyError, invalid_key_type, from_bip32, key_source}

module _ (K : KeyLibrary) where
  unfoldable pub derive :
      BdkDescriptorPublicKey K
      → K.DerivationPath
      → Result (BdkDescriptorPublicKey K) DescriptorKeyError
  unfolding from_bip32 key_source
  derive (single _) path = err invalid_key_type
  derive (xpub descriptor_x_key) path =
      map_err (from_bip32 K) (K.derive_pub descriptor_x_key.xkey path) >>= λ derived_xpub. ok (
        xpub (record {
          origin =
              some (
                key_source K descriptor_x_key.origin (K.fingerprint_pub descriptor_x_key.xkey)
                  path);
          xkey = derived_xpub;
          derivation_path = K.master;
          wildcard = descriptor_x_key.wildcard;
        }))
  derive (multi_xpub _) path = err invalid_key_type

  unfoldable pub extend :
      BdkDescriptorPublicKey K
      → K.DerivationPath
      → Result (BdkDescriptorPublicKey K) DescriptorKeyError
  extend (single _) path = err invalid_key_type
  extend (xpub descriptor_x_key) path = ok (
      xpub (record descriptor_x_key {
        derivation_path = K.extend descriptor_x_key.derivation_path path;
      }))
  extend (multi_xpub _) path = err invalid_key_type
