-- ===== src/Keys/Derivation.antt =====
-- Deriving and extending in steps and at once.
use bdk_ffi.Prelude.{Option, none, some, ◌>>=◌, ◌≡◌, refl, Result-cases, inl, inr}
use bdk_ffi.Keys.Library.{
  KeyLibrary, BdkDescriptorSecretKey, BdkDescriptorPublicKey, single, xprv, multi_xprv, xpub,
  multi_xpub, IsBip32,
}
use bdk_ffi.Keys.Secret.{DescriptorKeyError, from_bip32, key_source}
use bdk_ffi.Keys.Secret
use bdk_ffi.Keys.Public

module _ (K : KeyLibrary) (law : IsBip32 K) where
  key_source_twice :
      (origin : Option (K.Fingerprint × K.DerivationPath)) (own other : K.Fingerprint)
      (p q : K.DerivationPath)
      → key_source K (some (key_source K origin own p)) other q
        ≡ key_source K origin own (K.extend p q)
  unfolding key_source
  key_source_twice none own other p q = refl
  key_source_twice (some (f, o)) own other p q = rw law.extend_assoc

  -- If the library's derivation along joined paths is derivation along the one and then the other,
  -- deriving a descriptor secret key along two paths in turn is deriving it along the path that
  -- joins them: the key, its origin, the rest of its fields and the error are the same, for every
  -- kind of key.
  pub derive_secret-extend :
      (k : BdkDescriptorSecretKey K) (p q : K.DerivationPath)
      → (Secret.derive K k p >>= λ k'. Secret.derive K k' q) ≡ Secret.derive K k (K.extend p q)
  unfolding Secret.derive
  derive_secret-extend (single _) p q = refl
  derive_secret-extend (xprv x) p q =
      rw (law.derive_priv-extend x.xkey p q) (elim (Result-cases (K.derive_priv x.xkey p)) [
        | inl (k, e) ↦ rw e (rw (key_source_twice x.origin _ (K.fingerprint_priv k) p q))
        | inr (error, e) ↦ rw e
      ])
  derive_secret-extend (multi_xprv _) p q = refl

  -- If the library's derivation along joined paths is derivation along the one and then the other,
  -- deriving a descriptor public key along two paths in turn is deriving it along the path that
  -- joins them: the key, its origin, the rest of its fields and the error are the same, for every
  -- kind of key.
  pub derive_public-extend :
      (k : BdkDescriptorPublicKey K) (p q : K.DerivationPath)
      → (Public.derive K k p >>= λ k'. Public.derive K k' q) ≡ Public.derive K k (K.extend p q)
  unfolding Public.derive
  derive_public-extend (single _) p q = refl
  derive_public-extend (xpub x) p q =
      rw (law.derive_pub-extend x.xkey p q) (elim (Result-cases (K.derive_pub x.xkey p)) [
        | inl (k, e) ↦ rw e (rw (key_source_twice x.origin _ (K.fingerprint_pub k) p q))
        | inr (error, e) ↦ rw e
      ])
  derive_public-extend (multi_xpub _) p q = refl

  -- If joining paths is associative, extending a descriptor secret key twice is extending it once
  -- by the path that joins the two, for every kind of key.
  extend-extend :
      (k : BdkDescriptorSecretKey K) (p q : K.DerivationPath)
      → (Secret.extend K k p >>= λ k'. Secret.extend K k' q) ≡ Secret.extend K k (K.extend p q)
  unfolding Secret.extend
  extend-extend (single _) p q = refl
  extend-extend (xprv x) p q = rw law.extend_assoc
  extend-extend (multi_xprv _) p q = refl

module _ (K : KeyLibrary) where
  -- Deriving a descriptor secret key that was extended forgets the extension: the result is that of
  -- deriving the key itself along the same path, for every kind of key.
  derive-extend :
      (k : BdkDescriptorSecretKey K) (p q : K.DerivationPath)
      → (Secret.extend K k p >>= λ k'. Secret.derive K k' q) ≡ Secret.derive K k q
  unfolding Secret.extend Secret.derive
  derive-extend (single _) p q = refl
  derive-extend (xprv x) p q = refl
  derive-extend (multi_xprv _) p q = refl
