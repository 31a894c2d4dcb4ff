-- ===== src/Keys/AsPublic.antt =====
-- `DescriptorSecretKey::as_public` of bdk-ffi/src/keys.rs, and how it meets derivation.
use bdk_ffi.Prelude.{
  some, Result, ok, map_ok, ◌≡◌, Result-cases, inl, inr, Outcome, returns, unwrap, arith,
}
use bdk_ffi.Keys.Library.{
  KeyLibrary, XKey, BdkDescriptorSecretKey, BdkDescriptorPublicKey, xprv, xpub,
}
use bdk_ffi.Keys.Secret.{DescriptorKeyError, key_source}
use bdk_ffi.Keys.Secret
use bdk_ffi.Keys.Public

-- `miniscript`'s `to_public`, and which paths have hardened steps.
pub record PublicLibrary (K : KeyLibrary) : Type 1 where
  pub KeyError : Type 0
  pub to_public : BdkDescriptorSecretKey K → Result (BdkDescriptorPublicKey K) KeyError
  pub neuter : K.Xprv → K.Xpub
  pub Unhardened : K.DerivationPath → Type 0

module _ (K : KeyLibrary) (N : PublicLibrary K) where
  unfoldable pub as_public : BdkDescriptorSecretKey K → Outcome (BdkDescriptorPublicKey K)
  as_public k = unwrap (N.to_public k)

  -- The public half of an extended key.
  abbrev pub public_half : XKey K K.Xprv → XKey K K.Xpub
  public_half x = record {
    origin = x.origin;
    xkey = N.neuter x.xkey;
    derivation_path = x.derivation_path;
    wildcard = x.wildcard;
  }

  -- What the libraries promise of public keys: `to_public` neuters the key and keeps the rest where the
  -- path has no hardened step, and without hardened steps neutering commutes with derivation.
  pub record IsNeutering : Type 0 where
    pub master-Unhardened : N.Unhardened K.master
    pub to_public_xprv :
        (x : XKey K K.Xprv)
        → N.Unhardened x.derivation_path
        → N.to_public (xprv x) ≡ ok (xpub (public_half x))
    pub derive_pub-neuter :
        (k : K.Xprv) (p : K.DerivationPath)
        → N.Unhardened p
        → K.derive_pub (N.neuter k) p ≡ map_ok N.neuter (K.derive_priv k p)
    pub fingerprint_pub-neuter :
        (k : K.Xprv) → K.fingerprint_pub (N.neuter k) ≡ K.fingerprint_priv k

  module _ (law : IsNeutering) where
    derived : (x : XKey K K.Xprv) (p : K.DerivationPath) (key : K.Xprv) → XKey K K.Xprv
    derived x p key = record {
      origin = some (key_source K x.origin (K.fingerprint_priv x.xkey) p);
      xkey = key;
      derivation_path = K.master;
      wildcard = x.wildcard;
    }

    -- What a successful derivation yields.
    derive-eq-ok :
        (x : XKey K K.Xprv) (p : K.DerivationPath) (k' : BdkDescriptorSecretKey K)
        → Secret.derive K (xprv x) p ≡ ok k'
        → (key : K.Xprv) × (K.derive_priv x.xkey p ≡ ok key) × (k' ≡ xprv (derived x p key))
    unfolding Secret.derive derived
    derive-eq-ok x p k' e = elim (Result-cases (K.derive_priv x.xkey p)) [
      | inl (key, h) ↦ (key, h, ground arith)
      | inr (error, h) ↦ ground arith
    ]

    derive-public_half :
        (x : XKey K K.Xprv) (p : K.DerivationPath) (key : K.Xprv)
        → N.Unhardened p
        → K.derive_priv x.xkey p ≡ ok key
        → Public.derive K (xpub (public_half x)) p ≡ ok (xpub (public_half (derived x p key)))
    unfolding Public.derive derived
    derive-public_half x p key soft h =
        rw (law.derive_pub-neuter x.xkey p soft, h, Public.derive)
          (rw (law.fingerprint_pub-neuter x.xkey))

    -- If an extended secret key derives to a child along a path without hardened steps, the child's
    -- public key is what the key's own public key derives to along that path: `as_public` panics on
    -- neither, the public derivation does not fail, and origin, derivation path and wildcard agree.
    -- The key's own derivation path has no hardened step either, and the library is taken to neuter
    -- keys as BIP 32 says.
    pub as_public-derive :
        (x : XKey K K.Xprv) (p : K.DerivationPath) (k' : BdkDescriptorSecretKey K)
        → N.Unhardened x.derivation_path
        → N.Unhardened p
        → Secret.derive K (xprv x) p ≡ ok k'
        → (public public' : BdkDescriptorPublicKey K) × (as_public (xprv x) ≡ returns public)
          × (Public.derive K public p ≡ ok public')
          × (as_public k' ≡ returns public')
    unfolding as_public derived
    as_public-derive x p k' soft_extension soft e =
        let (key, h, form) = derive-eq-ok x p k' e in
        (
          xpub (public_half x),
          xpub (public_half (derived x p key)),
          rw (law.to_public_xprv x soft_extension, as_public),
          derive-public_half x p key soft h,
          rw (form, law.to_public_xprv (derived x p key) law.master-Unhardened, as_public),
        )
