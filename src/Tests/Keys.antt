-- ===== src/Tests/Keys.antt =====
-- Keys that are the paths they were derived along, and the theorems on keys at them.
use mathlib.Core.List.{append_assoc}
use mathlib.Core.Path.{subst}
use bdk_ffi.Prelude.{
  ℕ, String, List, [], ◌∷◌, ◌++◌, some, Result, ok, err, ◌>>=◌, returns, length, take, replicate,
  map, map_err, zero, suc, ◌≡◌, refl, ap, sym, true, false, Bool, if◌then◌else◌, arith,
}
use bdk_ffi.Keys.Library.{
  KeyLibrary, XKey, BdkDescriptorSecretKey, BdkDescriptorPublicKey, xprv, xpub, IsBip32,
}
use text.Mathlib.Text.{◌==◌}
use bdk_ffi.Errors.Small.{BdkBip39Error}
use bdk_ffi.Keys.Mnemonic
use bdk_ffi.Keys.Mnemonic.{MnemonicLibrary}
use bdk_ffi.Keys.Mnemonic.Words.{
  IsBip39, CountsFit, Follows, new-eq-from_entropy, IsEntropy, from_string-Follows,
}
use bdk_ffi.Tests.Primitives.{numbers}
use bdk_ffi.Keys.Secret
use bdk_ffi.Keys.Public
use bdk_ffi.Keys.AsPublic.{PublicLibrary, IsNeutering, as_public, as_public-derive}
use bdk_ffi.Keys.Derivation.{derive_secret-extend, derive_public-extend}

abbrev pub paths : KeyLibrary
paths = record {
  Network = ℕ;
  DerivationPath = List ℕ;
  Fingerprint = ℕ;
  Wildcard = ℕ;
  unhardened = 1;
  Xprv = List ℕ;
  Xpub = List ℕ;
  SinglePriv = ℕ;
  SinglePub = ℕ;
  MultiXprv = ℕ;
  MultiXpub = ℕ;
  Bip32Error = String;
  bip32_debug = λ e. e;
  ParseError = String;
  parse_debug = λ e. e;
  master = [];
  extend = λ p q. p ++ q;
  derive_priv = λ key path. ok (key ++ path);
  derive_pub = λ key path. ok (key ++ path);
  fingerprint_priv = λ key. length key;
  fingerprint_pub = λ key. length key;
  secret_bytes = λ key. key;
  Mnemonic = String;
  ExtendedKey = List ℕ;
  into_extended_key = λ mnemonic password. ok [];
  into_xprv = λ key network. some key;
}

paths-IsBip32 : IsBip32 paths
paths-IsBip32 = record {
  extend_assoc = λ p q r. append_assoc p q r;
  derive_priv-extend = λ k p q. ap ok (sym (append_assoc k p q));
  derive_pub-extend = λ k p q. ap ok (sym (append_assoc k p q));
}

abbrev pub parent : XKey paths (List ℕ)
parent = record {
  origin = some (9, 84 ∷ []);
  xkey = 1 ∷ 2 ∷ [];
  derivation_path = 0 ∷ [];
  wildcard = 1;
}

-- The public half, for keys of one shape.
abbrev to_public : BdkDescriptorSecretKey paths → Result (BdkDescriptorPublicKey paths) String
to_public (xprv x) = ok (xpub x)
to_public _ = err "not an extended key"

abbrev neutered : PublicLibrary paths
neutered = record {
  KeyError = String;
  to_public = to_public;
  neuter = λ key. key;
  Unhardened = λ path. Unit {0};
}

neutered-IsNeutering : IsNeutering paths neutered
neutered-IsNeutering = record {
  master-Unhardened = tt;
  to_public_xprv = λ x soft. refl;
  derive_pub-neuter = λ k p soft. refl;
  fingerprint_pub-neuter = λ k. refl;
}

derive_secret-extend_example :
    (Secret.derive paths (xprv parent) (5 ∷ []) >>= λ k. Secret.derive paths k (6 ∷ []))
    ≡ Secret.derive paths (xprv parent) (5 ∷ 6 ∷ [])
derive_secret-extend_example =
    derive_secret-extend paths paths-IsBip32 (xprv parent) (5 ∷ []) (6 ∷ [])

derive_public-extend_example :
    (Public.derive paths (xpub parent) (5 ∷ []) >>= λ k. Public.derive paths k (6 ∷ []))
    ≡ Public.derive paths (xpub parent) (5 ∷ 6 ∷ [])
derive_public-extend_example =
    derive_public-extend paths paths-IsBip32 (xpub parent) (5 ∷ []) (6 ∷ [])

abbrev child : BdkDescriptorSecretKey paths
child = xprv (record {
  origin = some (9, 84 ∷ 5 ∷ []);
  xkey = 1 ∷ 2 ∷ 5 ∷ [];
  derivation_path = [];
  wildcard = 1;
})

derived_child : Secret.derive paths (xprv parent) (5 ∷ []) ≡ ok child
unfolding Secret.derive
derived_child = refl

as_public-derive_example :
    (public public' : BdkDescriptorPublicKey paths) × (as_public paths neutered (xprv parent)
      ≡ returns public)
    × (Public.derive paths public (5 ∷ []) ≡ ok public')
    × (as_public paths neutered child ≡ returns public')
as_public-derive_example =
    as_public-derive paths neutered neutered-IsNeutering parent (5 ∷ []) child tt tt derived_child

-- Mnemonics that are any text but the empty one, and entropy that is any bytes but none. The first byte of the entropy
-- decides on the word.
abbrev read_words : String → Result String (BdkBip39Error String)
read_words text = if text == "" then err (BdkBip39Error.bad_word_count 0) else ok text

abbrev word : ℕ → String
word zero = "abandon"
word (suc byte) = "zoo"

abbrev read_entropy : List ℕ → Result String (BdkBip39Error String)
read_entropy [] = err (BdkBip39Error.bad_entropy_bit_count 0)
read_entropy (byte ∷ bytes) = ok (word byte)

data WordCount : Type 0 where
  words_12 words_24 : WordCount

abbrev entropy_bytes : WordCount → ℕ
entropy_bytes words_12 = 16
entropy_bytes words_24 = 32

abbrev words : MnemonicLibrary numbers paths
words = record {
  WordCount = WordCount;
  GenerateError = String;
  generate_with_entropy = λ word_count entropy.
      map_err (λ e. "no words") (read_entropy (take (entropy_bytes word_count) entropy));
  parse_in = read_words;
  from_str = read_words;
  from_entropy = read_entropy;
  mnemonic_to_string = λ mnemonic. mnemonic;
  path_from_str = λ text. ok [];
}

read-word : (byte : ℕ) → read_words (word byte) ≡ ok (word byte)
read-word zero = refl
read-word (suc byte) = refl

makes :
    (entropy : List ℕ)
    → IsEntropy (length entropy)
    → (mnemonic : String) × (read_entropy entropy ≡ ok mnemonic)
makes [] (multiple, least, most) = elim least [ ]
makes (byte ∷ bytes) fits = (word byte, refl)

parses :
    (entropy : List ℕ) (mnemonic : String)
    → read_entropy entropy ≡ ok mnemonic
    → read_words mnemonic ≡ ok mnemonic
parses [] mnemonic e = ground arith
parses (byte ∷ bytes) mnemonic e =
    let same : word byte ≡ mnemonic = ground arith in
    subst (λ text. read_words text ≡ ok text) same (read-word byte)

entropy_bytes_fit : (word_count : WordCount) → IsEntropy (entropy_bytes word_count)
entropy_bytes_fit words_12 = (refl, omega arith, omega arith)
entropy_bytes_fit words_24 = (refl, omega arith, omega arith)

words-IsBip39 : IsBip39 numbers paths words
words-IsBip39 = record {
  bytes = entropy_bytes;
  bytes_fit = entropy_bytes_fit;
  makes = makes;
  generates = λ word_count entropy mnemonic enough made. rw (made) refl;
  parses = parses;
  detects = λ text mnemonic parsed. parsed;
}

-- A generator whose bytes are all 1 over a buffer of zeros.
length-filled : (buffer : List ℕ) → length (map suc buffer) ≡ length buffer
length-filled [] = refl
length-filled (byte ∷ bytes) = ap suc (length-filled bytes)

-- What is read has counts that fit, if it is an error.
abbrev Counts : Result String (BdkBip39Error String) → Type 0
Counts (ok _) = Unit
Counts (err e) = CountsFit e

Counts-words :
    (text : String) (b : Bool)
    → Counts (if b then err (BdkBip39Error.bad_word_count 0) else ok text)
Counts-words text true = omega arith
Counts-words text false = tt

Counts-entropy : (entropy : List ℕ) → Counts (read_entropy entropy)
Counts-entropy [] = omega arith
Counts-entropy (byte ∷ bytes) = tt

new-eq-from_entropy_example :
    (mnemonic : String) × (Mnemonic.new numbers paths words (map suc) words_12 ≡ returns mnemonic)
    × (Mnemonic.from_entropy numbers paths words (take 16 (replicate 32 1)) ≡ returns (ok mnemonic))
    × (Mnemonic.from_string numbers paths words (Mnemonic.to_string numbers paths words mnemonic)
        ≡ returns (ok mnemonic))
unfolding words-IsBip39
new-eq-from_entropy_example =
    new-eq-from_entropy numbers paths words words-IsBip39 (map suc) words_12 length-filled

from_string-Follows_example :
    Follows numbers paths words (read_words "zoo") (Mnemonic.from_string numbers paths words "zoo")
    × Follows numbers paths words (read_entropy []) (Mnemonic.from_entropy numbers paths words [])
from_string-Follows_example =
    from_string-Follows numbers paths words
      (λ text e same. subst Counts same (Counts-words text (text == "")))
      (λ entropy e same. subst Counts same (Counts-entropy entropy)) "zoo" []
