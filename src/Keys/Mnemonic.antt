-- ===== src/Keys/Mnemonic.antt =====
-- `Mnemonic` and `DerivationPath::new` of bdk-ffi/src/keys.rs, over what they use of the BIP 39 library, which is not part
-- of the repository. A mnemonic and a path wrap the library's.
pub mod Words
use bdk_ffi.Prelude.{
  ℕ, ◌<◌, ◌^◌, String, List, length, replicate, Result, ok, err, map_err, Outcome, returns, panics,
  unwrap, and_then, ◌≡◌, refl, arith,
}
use bdk_ffi.Extern.{Primitives}
use bdk_ffi.Errors.Bip32.{Bip32Error, BdkBip32Error, from_bip32_error}
use bdk_ffi.Errors.Small.{Bip39Error, BdkBip39Error, from_bip39}
use bdk_ffi.Keys.Library.{KeyLibrary}

pub record MnemonicLibrary (P : Primitives) (K : KeyLibrary) : Type 1 where
  pub WordCount : Type 0
  pub GenerateError : Type 0
  -- `Mnemonic::generate_with_entropy` in English, printed.
  pub generate_with_entropy : WordCount → List ℕ → Result String GenerateError
  -- `Mnemonic::parse_in` in English
  pub parse_in : String → Result K.Mnemonic (BdkBip39Error P.Payload)
  pub from_str : String → Result K.Mnemonic (BdkBip39Error P.Payload)
  pub from_entropy : List ℕ → Result K.Mnemonic (BdkBip39Error P.Payload)
  pub mnemonic_to_string : K.Mnemonic → String
  -- `bip32::DerivationPath::from_str`
  pub path_from_str : String → Result K.DerivationPath (BdkBip32Error P.Payload)

module _ (P : Primitives) (K : KeyLibrary) (M : MnemonicLibrary P K) where
  -- `Mnemonic::new`, over what the generator of random numbers leaves in a buffer that it is told to fill.
  unfoldable pub new : (List ℕ → List ℕ) → M.WordCount → Outcome K.Mnemonic
  new fill word_count =
      let entropy = fill (replicate 32 0) in
      and_then (unwrap (M.generate_with_entropy word_count entropy))
        λ generated_key. unwrap (M.parse_in generated_key)

  -- `map_err(Bip39Error::from)`, whose conversion may panic.
  unfoldable pub converted :
      Result K.Mnemonic (BdkBip39Error P.Payload) → Outcome (Result K.Mnemonic Bip39Error)
  converted (ok mnemonic) = returns (ok mnemonic)
  converted (err e) = and_then (from_bip39 P e) λ error. returns (err error)

  unfoldable pub from_string : String → Outcome (Result K.Mnemonic Bip39Error)
  unfolding converted
  from_string mnemonic = converted (M.from_str mnemonic)

  unfoldable pub from_entropy : List ℕ → Outcome (Result K.Mnemonic Bip39Error)
  unfolding converted
  from_entropy entropy = converted (M.from_entropy entropy)

  -- `Display`
  unfoldable pub to_string : K.Mnemonic → String
  to_string mnemonic = M.mnemonic_to_string mnemonic

  -- `DerivationPath::new`
  unfoldable pub new_path : String → Result K.DerivationPath Bip32Error
  new_path path = map_err (from_bip32_error P) (M.path_from_str path)
