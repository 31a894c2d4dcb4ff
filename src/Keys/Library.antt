-- ===== src/Keys/Library.antt =====
-- The BIP 32 and BIP 39 library under bdk-ffi/src/keys.rs: its key types as the source takes them
-- apart and builds them, and its functions as parameters.
use bdk_ffi.Prelude.{ℕ, List, String, Option, Result, ◌≡◌, ◌>>=◌}

-- `miniscript::descriptor::DescriptorXKey`, over the key, the fingerprint, the path and the wildcard.
pub record DescriptorXKey (Key Fingerprint Path' Wildcard : Type 0) : Type 0 where
  pub origin : Option (Fingerprint × Path')
  pub xkey : Key
  pub derivation_path : Path'
  pub wildcard : Wildcard

pub record KeyLibrary : Type 1 where
  pub Network : Type 0
  pub DerivationPath : Type 0
  pub Fingerprint : Type 0
  pub Wildcard : Type 0
  pub unhardened : Wildcard
  pub Xprv : Type 0
  pub Xpub : Type 0
  pub SinglePriv : Type 0
  pub SinglePub : Type 0
  pub MultiXprv : Type 0
  pub MultiXpub : Type 0
  -- `bip32::Error` and the error of parsing a descriptor key, with `Debug`.
  pub Bip32Error : Type 0
  pub bip32_debug : Bip32Error → String
  pub ParseError : Type 0
  pub parse_debug : ParseError → String
  pub master : DerivationPath
  pub extend : DerivationPath → DerivationPath → DerivationPath
  pub derive_priv : Xprv → DerivationPath → Result Xprv Bip32Error
  pub derive_pub : Xpub → DerivationPath → Result Xpub Bip32Error
  pub fingerprint_priv : Xprv → Fingerprint
  pub fingerprint_pub : Xpub → Fingerprint
  pub secret_bytes : Xprv → List ℕ
  -- `bip39`
  pub Mnemonic : Type 0
  pub ExtendedKey : Type 0
  pub into_extended_key : Mnemonic → Option String → Result ExtendedKey Bip32Error
  pub into_xprv : ExtendedKey → Network → Option Xprv

module _ (K : KeyLibrary) where
  abbrev pub XKey : Type 0 → Type 0
  XKey Key = DescriptorXKey Key K.Fingerprint K.DerivationPath K.Wildcard

  -- `miniscript::descriptor::DescriptorSecretKey`
  pub data BdkDescriptorSecretKey : Type 0 where
    single : K.SinglePriv → BdkDescriptorSecretKey
    xprv : XKey K.Xprv → BdkDescriptorSecretKey
    multi_xprv : K.MultiXprv → BdkDescriptorSecretKey

  -- `miniscript::descriptor::DescriptorPublicKey`
  pub data BdkDescriptorPublicKey : Type 0 where
    single : K.SinglePub → BdkDescriptorPublicKey
    xpub : XKey K.Xpub → BdkDescriptorPublicKey
    multi_xpub : K.MultiXpub → BdkDescriptorPublicKey

-- What BIP 32 promises of paths and of derivation along them.
pub record IsBip32 (K : KeyLibrary) : Type 0 where
  pub extend_assoc :
      (p q r : K.DerivationPath) → K.extend (K.extend p q) r ≡ K.extend p (K.extend q r)
  pub derive_priv-extend :
      (k : K.Xprv) (p q : K.DerivationPath)
      → K.derive_priv k (K.extend p q) ≡ (K.derive_priv k p >>= λ k'. K.derive_priv k' q)
  pub derive_pub-extend :
      (k : K.Xpub) (p q : K.DerivationPath)
      → K.derive_pub k (K.extend p q) ≡ (K.derive_pub k p >>= λ k'. K.derive_pub k' q)
