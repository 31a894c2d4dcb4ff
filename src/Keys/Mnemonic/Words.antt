-- ===== src/Keys/Mnemonic/Words.antt =====
-- New mnemonics, and the texts and bytes that are refused.
use mathlib.Core.Path.{subst}
use bdk_ffi.Prelude.{
  ℕ, ◌<◌, ◌^◌, String, List, length, take, replicate, length-take, ◌≤◌, ◌%◌, sym, arith, Result, ok,
  err, Outcome, returns, ◌≡◌, refl,
}
use bdk_ffi.Extern.{Primitives}
use bdk_ffi.Errors.Small.{Bip39Error, BdkBip39Error, from_bip39, expect_u64_below}
use bdk_ffi.Keys.Library.{KeyLibrary}
use bdk_ffi.Keys.Mnemonic.{MnemonicLibrary, new, converted, from_string, from_entropy, to_string}

-- Entropy of a mnemonic has between 128 and 256 bits, and a multiple of 32 of them.
abbrev pub IsEntropy : ℕ → Type 0
IsEntropy n = (n % 4 ≡ 0) × (16 ≤ n) × (n ≤ 32)

-- What the library says of mnemonics in English. A number of words stands for a number of bytes of entropy, which a
-- mnemonic can be made of, and what is generated is printed from the first bytes that it is given. A mnemonic of entropy
-- prints to English words that are parsed to it, and a text that is English is parsed as such when no language is given.
pub record IsBip39 (P : Primitives) (K : KeyLibrary) (M : MnemonicLibrary P K) : Type 0 where
  pub bytes : M.WordCount → ℕ
  pub bytes_fit : (word_count : M.WordCount) → IsEntropy (bytes word_count)
  pub makes :
      (entropy : List ℕ)
      → IsEntropy (length entropy)
      → (mnemonic : K.Mnemonic) × (M.from_entropy entropy ≡ ok mnemonic)
  pub generates :
      (word_count : M.WordCount) (entropy : List ℕ) (mnemonic : K.Mnemonic)
      → bytes word_count ≤ length entropy
      → M.from_entropy (take (bytes word_count) entropy) ≡ ok mnemonic
      → M.generate_with_entropy word_count entropy ≡ ok (M.mnemonic_to_string mnemonic)
  pub parses :
      (entropy : List ℕ) (mnemonic : K.Mnemonic)
      → M.from_entropy entropy ≡ ok mnemonic
      → M.parse_in (M.mnemonic_to_string mnemonic) ≡ ok mnemonic
  pub detects :
      (text : String) (mnemonic : K.Mnemonic)
      → M.parse_in text ≡ ok mnemonic
      → M.from_str text ≡ ok mnemonic

-- The counts in an error are numbers of a `usize` that is not wider than 64 bits.
abbrev pub CountsFit : {V : Type 0} → BdkBip39Error V → Type 0
CountsFit (BdkBip39Error.bad_word_count n) = n < 2 ^ 64
CountsFit (BdkBip39Error.unknown_word n) = n < 2 ^ 64
CountsFit (BdkBip39Error.bad_entropy_bit_count n) = n < 2 ^ 64
CountsFit _ = Unit

module _ (P : Primitives) (K : KeyLibrary) (M : MnemonicLibrary P K) where
  -- If the library makes a mnemonic of any entropy that BIP 39 allows, generates words from as many
  -- of the first bytes as the word count stands for, and parses an English mnemonic that it
  -- printed, whether it is told the language or not, then for any word count and any generator that
  -- fills its buffer, `Mnemonic::new` does not panic: the bindings' `Mnemonic::from_entropy` makes
  -- the same mnemonic of the first of the 32 bytes, and `Mnemonic::from_string` gives it back from
  -- its text.
  pub new-eq-from_entropy :
      (law : IsBip39 P K M) (fill : List ℕ → List ℕ) (word_count : M.WordCount)
      → ((buffer : List ℕ) → length (fill buffer) ≡ length buffer)
      → (mnemonic : K.Mnemonic) × (new P K M fill word_count ≡ returns mnemonic)
        × (from_entropy P K M (take (law.bytes word_count) (fill (replicate 32 0)))
            ≡ returns (ok mnemonic))
        × (from_string P K M (to_string P K M mnemonic) ≡ returns (ok mnemonic))
  unfolding new from_string from_entropy to_string converted
  new-eq-from_entropy law fill word_count fills =
      let entropy = fill (replicate 32 0) in
      let full : length entropy ≡ 32 = fills (replicate 32 0) in
      let (multiple, least, most) = law.bytes_fit word_count in
      let enough : law.bytes word_count ≤ length entropy = omega (arith, full, most) in
      let first : length (take (law.bytes word_count) entropy) ≡ law.bytes word_count =
        length-take (law.bytes word_count) entropy enough in
      let (mnemonic, made) =
        law.makes (take (law.bytes word_count) entropy)
          (subst IsEntropy (sym first) (law.bytes_fit word_count)) in
      let generated = law.generates word_count entropy mnemonic enough made in
      let parsed = law.parses (take (law.bytes word_count) entropy) mnemonic made in
      (
        mnemonic,
        rw (generated, parsed) refl,
        rw (made) refl,
        rw (law.detects (M.mnemonic_to_string mnemonic) mnemonic parsed) refl,
      )

  from_bip39-returns :
      (e : BdkBip39Error P.Payload)
      → CountsFit e
      → (error : Bip39Error) × (from_bip39 P e ≡ returns error)
  unfolding from_bip39
  from_bip39-returns (BdkBip39Error.bad_word_count n) fits =
      (Bip39Error.bad_word_count n, rw (expect_u64_below n fits) refl)
  from_bip39-returns (BdkBip39Error.unknown_word n) fits =
      (Bip39Error.unknown_word n, rw (expect_u64_below n fits) refl)
  from_bip39-returns (BdkBip39Error.bad_entropy_bit_count n) fits =
      (Bip39Error.bad_entropy_bit_count n, rw (expect_u64_below n fits) refl)
  from_bip39-returns BdkBip39Error.invalid_checksum fits = (_, refl)
  from_bip39-returns (BdkBip39Error.ambiguous_languages info) fits = (_, refl)

  -- The result follows what the library says.
  abbrev pub Follows :
      Result K.Mnemonic (BdkBip39Error P.Payload) → Outcome (Result K.Mnemonic Bip39Error) → Type 0
  Follows (ok mnemonic) outcome = outcome ≡ returns (ok mnemonic)
  Follows (err e) outcome =
      (error : Bip39Error) × (from_bip39 P e ≡ returns error) × (outcome ≡ returns (err error))

  converted-Follows :
      (r : Result K.Mnemonic (BdkBip39Error P.Payload))
      → ((e : BdkBip39Error P.Payload) → r ≡ err e → CountsFit e)
      → Follows r (converted P K M r)
  unfolding converted
  converted-Follows (ok mnemonic) fits = refl
  converted-Follows (err e) fits =
      let (error, same) = from_bip39-returns e (fits e refl) in (error, same, rw (same) refl)

  -- If the counts in the library's errors are below 2 ^ 64, then `Mnemonic::from_string` and
  -- `Mnemonic::from_entropy` never panic: they give the library's mnemonic, or the conversion of its
  -- error.
  pub from_string-Follows :
      ((text : String) (e : BdkBip39Error P.Payload) → M.from_str text ≡ err e → CountsFit e)
      → ((entropy : List ℕ) (e : BdkBip39Error P.Payload)
          → M.from_entropy entropy ≡ err e
          → CountsFit e)
      → (text : String) (entropy : List ℕ)
      → Follows (M.from_str text) (from_string P K M text)
        × Follows (M.from_entropy entropy) (from_entropy P K M entropy)
  unfolding from_string from_entropy
  from_string-Follows text_fits entropy_fits text entropy = (
    converted-Follows (M.from_str text) (text_fits text),
    converted-Follows (M.from_entropy entropy) (entropy_fits entropy),
  )
