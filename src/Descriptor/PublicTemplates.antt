-- ===== src/Descriptor/PublicTemplates.antt =====
-- When the template constructors of `Descriptor` with a public key return, and when they panic.
use bdk_ffi.Prelude.{
  String, some, ok, ◌≡◌, refl, ap, sym, ◌∙◌, ◌↔◌, Outcome, returns, panics, unwrap_some, and_then,
  Option-cases, inl, inr, arith,
}
use bdk_ffi.Extern.{Primitives, KeychainKind}
use bdk_ffi.Keys.Library.{KeyLibrary, BdkDescriptorPublicKey, single, xpub, multi_xpub, XKey}
use bdk_ffi.Descriptor.{
  DescriptorLibrary, Descriptor, new_bip44_public, new_bip49_public, new_bip84_public,
  new_bip86_public, templated_bip44, templated_bip49, templated_bip84, templated_bip86,
}
use bdk_ffi.Descriptor.Templates.{
  Template, bip44, bip49, bip84, bip86, Parts, finished, finished-eq-returns,
}

module _ (P : Primitives) (K : KeyLibrary) (D : DescriptorLibrary P K) where
  -- The constructor for a template with a public key, and the function of the library that it is meant to use.
  abbrev pub new_public :
      Template
      → BdkDescriptorPublicKey K
      → String
      → KeychainKind
      → K.Network
      → Outcome (Descriptor P K D)
  new_public bip44 = new_bip44_public P K D
  new_public bip49 = new_bip49_public P K D
  new_public bip84 = new_bip84_public P K D
  new_public bip86 = new_bip86_public P K D

  abbrev pub build_public :
      Template → K.Xpub → K.Fingerprint → KeychainKind → K.Network → Parts P K D
  build_public bip44 = D.bip44_public
  build_public bip49 = D.bip49_public
  build_public bip84 = D.bip84_public
  build_public bip86 = D.bip86_public

  -- The outcome of a public template once the fingerprint is parsed, by the shape of the key.
  keyed_outcome :
      Template
      → BdkDescriptorPublicKey K
      → K.Fingerprint
      → KeychainKind
      → K.Network
      → Outcome (Descriptor P K D)
  keyed_outcome template (single _) fingerprint kind network = panics
  keyed_outcome template (xpub x) fingerprint kind network =
      finished P K D (build_public template x.xkey fingerprint kind network)
  keyed_outcome template (multi_xpub _) fingerprint kind network = panics

  abbrev templated :
      Template
      → BdkDescriptorPublicKey K
      → KeychainKind
      → K.Network
      → K.Fingerprint
      → Outcome (Descriptor P K D)
  templated bip44 = templated_bip44 P K D
  templated bip49 = templated_bip49 P K D
  templated bip84 = templated_bip84 P K D
  templated bip86 = templated_bip86 P K D

  templated-keyed_outcome :
      (template : Template) (key : BdkDescriptorPublicKey K) (kind : KeychainKind)
      (network : K.Network) (fingerprint : K.Fingerprint)
      → templated template key kind network fingerprint
        ≡ keyed_outcome template key fingerprint kind network
  unfolding keyed_outcome finished templated_bip44 templated_bip49 templated_bip84 templated_bip86
  templated-keyed_outcome bip44 (single _) kind network f = refl
  templated-keyed_outcome bip44 (xpub _) kind network f = refl
  templated-keyed_outcome bip44 (multi_xpub _) kind network f = refl
  templated-keyed_outcome bip49 (single _) kind network f = refl
  templated-keyed_outcome bip49 (xpub _) kind network f = refl
  templated-keyed_outcome bip49 (multi_xpub _) kind network f = refl
  templated-keyed_outcome bip84 (single _) kind network f = refl
  templated-keyed_outcome bip84 (xpub _) kind network f = refl
  templated-keyed_outcome bip84 (multi_xpub _) kind network f = refl
  templated-keyed_outcome bip86 (single _) kind network f = refl
  templated-keyed_outcome bip86 (xpub _) kind network f = refl
  templated-keyed_outcome bip86 (multi_xpub _) kind network f = refl

  new_public-templated :
      (template : Template) (key : BdkDescriptorPublicKey K) (text : String) (kind : KeychainKind)
      (network : K.Network)
      → new_public template key text kind network
        ≡ and_then (unwrap_some (D.parse_fingerprint text)) (templated template key kind network)
  unfolding new_bip44_public new_bip49_public new_bip84_public new_bip86_public
  new_public-templated bip44 key text kind network = refl
  new_public-templated bip49 key text kind network = refl
  new_public-templated bip84 key text kind network = refl
  new_public-templated bip86 key text kind network = refl

  -- The fingerprint parses, the key is one extended public key, and the library builds the descriptor from both.
  unfoldable pub BuildsPublic :
      Template
      → BdkDescriptorPublicKey K
      → String
      → KeychainKind
      → K.Network
      → Descriptor P K D
      → Type 0
  BuildsPublic template key text kind network d =
      (f : K.Fingerprint) × (x : XKey K K.Xpub) × (D.parse_fingerprint text ≡ some f)
      × (key ≡ xpub x)
      × (build_public template x.xkey f kind network ≡ ok (d.extended_descriptor, d.key_map))

  keyed_outcome-eq-returns :
      (template : Template) (key : BdkDescriptorPublicKey K) (f : K.Fingerprint)
      (kind : KeychainKind) (network : K.Network) (d : Descriptor P K D)
      → (keyed_outcome template key f kind network ≡ returns d) ↔ (
          (x : XKey K K.Xpub) × (key ≡ xpub x)
          × (build_public template x.xkey f kind network ≡ ok (d.extended_descriptor, d.key_map)))
  unfolding keyed_outcome
  keyed_outcome-eq-returns template (single _) f kind network d =
      (λ e. ground arith, λ (x, e, _). ground arith)
  keyed_outcome-eq-returns template (xpub x) f kind network d = (
    λ e. (x, refl, (finished-eq-returns P K D (build_public template x.xkey f kind network) d).0 e),
    λ (y, e, built).
        let same : x ≡ y = ground arith in
        (finished-eq-returns P K D (build_public template x.xkey f kind network) d).1
          (rw same built),
  )
  keyed_outcome-eq-returns template (multi_xpub _) f kind network d =
      (λ e. ground arith, λ (x, e, _). ground arith)

  -- Each of `new_bip44_public`, `new_bip49_public`, `new_bip84_public` and `new_bip86_public`
  -- returns a descriptor exactly if the fingerprint parses, the key is one extended public key, and
  -- the library builds that template from the two, for the same keychain and network; the
  -- descriptor is then the one built.
  pub new_public-eq-returns :
      (template : Template) (key : BdkDescriptorPublicKey K) (text : String) (kind : KeychainKind)
      (network : K.Network) (d : Descriptor P K D)
      → (new_public template key text kind network ≡ returns d)
        ↔ BuildsPublic template key text kind network d
  unfolding BuildsPublic
  new_public-eq-returns template key text kind network d =
      rw (new_public-templated template key text kind network)
        elim (Option-cases (D.parse_fingerprint text)) [
          | inl h ↦ rw h (λ e. ground arith, λ (f, x, parsed, _, _). ground arith)
          | inr (f, h) ↦
              let step = keyed_outcome-eq-returns template key f kind network d in
              let opened = templated-keyed_outcome template key kind network f in
              let parse =
                ap (λ o. and_then (unwrap_some o) (templated template key kind network)) h in
              (
                λ e.
                    let (x, is_xpub, built) = step.0 (sym opened ∙ sym parse ∙ e) in
                    (f, x, h, is_xpub, built),
                λ (g, x, parsed, is_xpub, built).
                    let same : f ≡ g = ground arith in
                    parse ∙ opened ∙ step.1 (x, is_xpub, rw same built),
              )
        ]
