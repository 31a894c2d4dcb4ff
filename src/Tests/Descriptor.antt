-- ===== src/Tests/Descriptor.antt =====
-- Descriptors that are texts, and the theorems on descriptors at them.
use bdk_ffi.Prelude.{ℕ, false, String, List, [], ◌∷◌, some, ok, returns, ◌≡◌, ◌↔◌}
use bdk_ffi.Extern.{external}
use bdk_ffi.Keys.Library.{xprv, xpub}
use bdk_ffi.Descriptor.{DescriptorLibrary, Descriptor, new_bip84, new_bip84_public}
use bdk_ffi.Descriptor.Templates.{bip84, Builds, new_secret-eq-returns}
use bdk_ffi.Descriptor.PublicTemplates.{BuildsPublic, new_public-eq-returns}
use bdk_ffi.Tests.Primitives.{plain}
use bdk_ffi.Tests.Keys.{paths, parent}

abbrev pub texts : DescriptorLibrary plain paths
texts = record {
  ExtendedDescriptor = String;
  KeyMap = List ℕ;
  TemplateError = String;
  into_wallet_descriptor = λ text network. ok (text, []);
  bip44 = λ key kind network. ok ("pkh", key);
  bip44_public = λ key fingerprint kind network. ok ("pkh", []);
  bip49 = λ key kind network. ok ("sh(wpkh)", key);
  bip49_public = λ key fingerprint kind network. ok ("sh(wpkh)", []);
  bip84 = λ key kind network. ok ("wpkh", key);
  bip84_public = λ key fingerprint kind network. ok ("wpkh", []);
  bip86 = λ key kind network. ok ("tr", key);
  bip86_public = λ key fingerprint kind network. ok ("tr", []);
  parse_fingerprint = λ text. some 9;
  to_string_with_secret = λ descriptor keys. descriptor;
  to_string = λ descriptor. descriptor;
  is_multipath = λ descriptor. false;
  into_single_descriptors = λ descriptor. ok (descriptor ∷ "change" ∷ []);
}

abbrev pub native_segwit : Descriptor plain paths texts
native_segwit = record { extended_descriptor = "wpkh"; key_map = 1 ∷ 2 ∷ [] }

abbrev watch_only : Descriptor plain paths texts
watch_only = record { extended_descriptor = "wpkh"; key_map = [] }

abbrev pub change : Descriptor plain paths texts
change = record { extended_descriptor = "change"; key_map = 1 ∷ 2 ∷ [] }

new_secret-eq-returns_example :
    (new_bip84 plain paths texts (xprv parent) external 0 ≡ returns native_segwit)
    ↔ Builds plain paths texts bip84 (xprv parent) external 0 native_segwit
new_secret-eq-returns_example =
    new_secret-eq-returns plain paths texts bip84 (xprv parent) external 0 native_segwit

new_public-eq-returns_example :
    (new_bip84_public plain paths texts (xpub parent) "d34db33f" external 0 ≡ returns watch_only)
    ↔ BuildsPublic plain paths texts bip84 (xpub parent) "d34db33f" external 0 watch_only
new_public-eq-returns_example =
    new_public-eq-returns plain paths texts bip84 (xpub parent) "d34db33f" external 0 watch_only
