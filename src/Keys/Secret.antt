-- ===== src/Keys/Secret.antt =====
-- `DescriptorKeyError` of bdk-ffi/src/error.rs, and `DescriptorSecretKey` of bdk-ffi/src/keys.rs. The
-- lock of a derivation path is taken only to copy it, so a path is its content.
use Prim.Native.String.{◌++◌ as ◌<>◌}
use bdk_ffi.Prelude.{
  ℕ, String, List, Option, none, some, Result, ok, err, map_err, ◌>>=◌, Outcome, returns, panics,
  unwrap, unwrap_some, and_then,
}
use bdk_ffi.Keys.Library.{KeyLibrary, BdkDescriptorSecretKey, single, xprv, multi_xprv}

pub data DescriptorKeyError : Type 0 where
  parse : String → DescriptorKeyError
  invalid_key_type : DescriptorKeyError
  bip32 : String → DescriptorKeyError

module _ (K : KeyLibrary) where
  unfoldable pub from_parse : K.ParseError → DescriptorKeyError
  from_parse e = parse ("DescriptorKeyError error: " <> K.parse_debug e)

  unfoldable pub from_bip32 : K.Bip32Error → DescriptorKeyError
  from_bip32 e = bip32 ("BIP32 derivation error: " <> K.bip32_debug e)

  -- The new origin of a key that is derived: the old one, with the path added; or, where there is none,
  -- the fingerprint of the key itself and the path.
  unfoldable pub key_source :
      Option (K.Fingerprint × K.DerivationPath)
      → K.Fingerprint
      → K.DerivationPath
      → K.Fingerprint × K.DerivationPath
  key_source (some (fingerprint, origin_path)) own path = (fingerprint, K.extend origin_path path)
  key_source none own path = (own, path)

  -- `DescriptorSecretKey::new`
  unfoldable pub new : K.Network → K.Mnemonic → Option String → Outcome (BdkDescriptorSecretKey K)
  new network mnemonic password = and_then (unwrap (K.into_extended_key mnemonic password)) λ xkey.
      and_then (unwrap_some (K.into_xprv xkey network)) λ key. returns (
        xprv (record {
          origin = none;
          xkey = key;
          derivation_path = K.master;
          wildcard = K.unhardened;
        }))

  unfoldable pub derive :
      BdkDescriptorSecretKey K
      → K.DerivationPath
      → Result (BdkDescriptorSecretKey K) DescriptorKeyError
  unfolding from_bip32 key_source
  derive (single _) path = err invalid_key_type
  derive (xprv descriptor_x_key) path =
      map_err from_bip32 (K.derive_priv descriptor_x_key.xkey path) >>= λ derived_xprv. ok (
        xprv (record {
          origin =
              some (
                key_source descriptor_x_key.origin (K.fingerprint_priv descriptor_x_key.xkey) path);
          xkey = derived_xprv;
          derivation_path = K.master;
          wildcard = descriptor_x_key.wildcard;
        }))
  derive (multi_xprv _) path = err invalid_key_type

  unfoldable pub extend :
      BdkDescriptorSecretKey K
      → K.DerivationPath
      → Result (BdkDescriptorSecretKey K) DescriptorKeyError
  extend (single _) path = err invalid_key_type
  extend (xprv descriptor_x_key) path = ok (
      xprv (record descriptor_x_key {
        derivation_path = K.extend descriptor_x_key.derivation_path path;
      }))
  extend (multi_xprv _) path = err invalid_key_type

  unfoldable pub secret_bytes : BdkDescriptorSecretKey K → Outcome (List ℕ)
  secret_bytes (single _) = panics
  secret_bytes (xprv descriptor_x_key) = returns (K.secret_bytes descriptor_x_key.xkey)
  secret_bytes (multi_xprv _) = panics
