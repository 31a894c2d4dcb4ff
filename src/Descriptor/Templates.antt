-- ===== src/Descriptor/Templates.antt =====
-- When the template constructors of `Descriptor` with a secret key return, and when they panic.
use bdk_ffi.Prelude.{
  Result, ok, err, ◌≡◌, refl, ◌↔◌, Outcome, returns, panics, unwrap, and_then, arith,
}
use bdk_ffi.Extern.{Primitives, KeychainKind}
use bdk_ffi.Keys.Library.{KeyLibrary, BdkDescriptorSecretKey, single, xprv, multi_xprv, XKey}
use bdk_ffi.Descriptor.{
  DescriptorLibrary, Descriptor, of_parts, new_bip44, new_bip49, new_bip84, new_bip86,
}

pub data Template : Type 0 where
  bip44 bip49 bip84 bip86 : Template

module _ (P : Primitives) (K : KeyLibrary) (D : DescriptorLibrary P K) where
  abbrev pub Parts : Type 0
  Parts = Result (D.ExtendedDescriptor × D.KeyMap) D.TemplateError

  -- The constructor for a template with a secret key, and the function of the library that it is meant to use.
  abbrev pub new_secret :
      Template → BdkDescriptorSecretKey K → KeychainKind → K.Network → Outcome (Descriptor P K D)
  new_secret bip44 = new_bip44 P K D
  new_secret bip49 = new_bip49 P K D
  new_secret bip84 = new_bip84 P K D
  new_secret bip86 = new_bip86 P K D

  abbrev pub build_secret : Template → K.Xprv → KeychainKind → K.Network → Parts
  build_secret bip44 = D.bip44
  build_secret bip49 = D.bip49
  build_secret bip84 = D.bip84
  build_secret bip86 = D.bip86

  -- A build that is unwrapped.
  unfoldable pub finished : Parts → Outcome (Descriptor P K D)
  finished parts = and_then (unwrap parts) λ p. returns (of_parts P K D p)

  pub finished-eq-returns :
      (parts : Parts) (d : Descriptor P K D)
      → (finished parts ≡ returns d) ↔ (parts ≡ ok (d.extended_descriptor, d.key_map))
  unfolding finished
  finished-eq-returns (ok p) d = (λ e. ground arith, λ e. ground arith)
  finished-eq-returns (err e) d = (λ h. ground arith, λ h. ground arith)

  -- The outcome of a template, by the shape of the key.
  secret_outcome :
      Template → BdkDescriptorSecretKey K → KeychainKind → K.Network → Outcome (Descriptor P K D)
  secret_outcome template (single _) kind network = panics
  secret_outcome template (xprv x) kind network =
      finished (build_secret template x.xkey kind network)
  secret_outcome template (multi_xprv _) kind network = panics

  new_secret-secret_outcome :
      (template : Template) (key : BdkDescriptorSecretKey K) (kind : KeychainKind)
      (network : K.Network)
      → new_secret template key kind network ≡ secret_outcome template key kind network
  unfolding secret_outcome finished new_bip44 new_bip49 new_bip84 new_bip86
  new_secret-secret_outcome bip44 (single _) kind network = refl
  new_secret-secret_outcome bip44 (xprv _) kind network = refl
  new_secret-secret_outcome bip44 (multi_xprv _) kind network = refl
  new_secret-secret_outcome bip49 (single _) kind network = refl
  new_secret-secret_outcome bip49 (xprv _) kind network = refl
  new_secret-secret_outcome bip49 (multi_xprv _) kind network = refl
  new_secret-secret_outcome bip84 (single _) kind network = refl
  new_secret-secret_outcome bip84 (xprv _) kind network = refl
  new_secret-secret_outcome bip84 (multi_xprv _) kind network = refl
  new_secret-secret_outcome bip86 (single _) kind network = refl
  new_secret-secret_outcome bip86 (xprv _) kind network = refl
  new_secret-secret_outcome bip86 (multi_xprv _) kind network = refl

  -- The key is one extended private key, from which the library builds the descriptor.
  unfoldable pub Builds :
      Template → BdkDescriptorSecretKey K → KeychainKind → K.Network → Descriptor P K D → Type 0
  Builds template key kind network d =
      (x : XKey K K.Xprv) × (key ≡ xprv x)
      × (build_secret template x.xkey kind network ≡ ok (d.extended_descriptor, d.key_map))

  secret_outcome-eq-returns :
      (template : Template) (key : BdkDescriptorSecretKey K) (kind : KeychainKind)
      (network : K.Network) (d : Descriptor P K D)
      → (secret_outcome template key kind network ≡ returns d) ↔ Builds template key kind network d
  unfolding secret_outcome Builds
  secret_outcome-eq-returns template (single _) kind network d =
      (λ e. ground arith, λ (x, e, _). ground arith)
  secret_outcome-eq-returns template (xprv x) kind network d = (
    λ e. (x, refl, (finished-eq-returns (build_secret template x.xkey kind network) d).0 e),
    λ (y, e, built).
        let same : x ≡ y = ground arith in
        (finished-eq-returns (build_secret template x.xkey kind network) d).1 (rw same built),
  )
  secret_outcome-eq-returns template (multi_xprv _) kind network d =
      (λ e. ground arith, λ (x, e, _). ground arith)

  -- Each of `new_bip44`, `new_bip49`, `new_bip84` and `new_bip86` returns a descriptor exactly if
  -- the key is one extended private key and the library builds that template from it, for the same
  -- keychain and network; the descriptor is then the one built.
  pub new_secret-eq-returns :
      (template : Template) (key : BdkDescriptorSecretKey K) (kind : KeychainKind)
      (network : K.Network) (d : Descriptor P K D)
      → (new_secret template key kind network ≡ returns d) ↔ Builds template key kind network d
  new_secret-eq-returns template key kind network d =
      rw (new_secret-secret_outcome template key kind network)
        (secret_outcome-eq-returns template key kind network d)
