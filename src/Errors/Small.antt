-- ===== src/Errors/Small.antt =====
-- `Bip39Error`, `CalculateFeeError`, `CannotConnectError`, `PersistenceError`, `SqliteError` and `TxidParseError` of
-- bdk-ffi/src/error.rs, the libraries' errors that they stand for, and the conversions.
use bdk_ffi.Prelude.{ℕ, ◌^◌, ◌<◌, ◌≡◌, refl, String, List, Outcome, returns, panics, and_then}
use native.Mathlib.Decide.{dec_lt}
use bdk_ffi.Extern.{Primitives}
use bdk_ffi.Errors.CreateTx.{CreateTxError}
use bdk_ffi.Errors.Esplora.{EsploraError}

pub data Bip39Error : Type 0 where
  bad_word_count unknown_word bad_entropy_bit_count : ℕ → Bip39Error
  invalid_checksum : Bip39Error
  ambiguous_languages : String → Bip39Error

pub data CannotConnectError : Type 0 where
  include : ℕ → CannotConnectError

pub data PersistenceError : Type 0 where
  write : String → PersistenceError

pub data SqliteError : Type 0 where
  sqlite : String → SqliteError

pub data TxidParseError : Type 0 where
  invalid_txid : String → TxidParseError

-- The libraries' errors, over what their variants carry.
pub data BdkBip39Error (V : Type 0) : Type 0 where
  bad_word_count unknown_word bad_entropy_bit_count : ℕ → BdkBip39Error V
  invalid_checksum : BdkBip39Error V
  ambiguous_languages : V → BdkBip39Error V

pub record BdkCannotConnectError : Type 0 where
  pub try_include_height : ℕ

-- `u64::try_from` of a `usize`, which is expected to fit.
abbrev pub expect_fits : (n : ℕ) → Dec (n < 2 ^ 64) → Outcome ℕ
expect_fits n (yes _) = returns n
expect_fits n (no _) = panics

expect_fits_below : (n : ℕ) (d : Dec (n < 2 ^ 64)) → n < 2 ^ 64 → expect_fits n d ≡ returns n
expect_fits_below n (yes _) fits = refl
expect_fits_below n (no above) fits = elim (above fits) [ ]

unfoldable pub expect_u64 : ℕ → Outcome ℕ
expect_u64 n = expect_fits n (dec_lt n (2 ^ 64))

pub expect_u64_below : (n : ℕ) → n < 2 ^ 64 → expect_u64 n ≡ returns n
unfolding expect_u64
expect_u64_below n fits = expect_fits_below n (dec_lt n (2 ^ 64)) fits

-- `impl From<BdkCannotConnectError> for CannotConnectError`
unfoldable pub from_cannot_connect : BdkCannotConnectError → CannotConnectError
from_cannot_connect error = include error.try_include_height

module _ (P : Primitives) where
  open P use {Payload, to_string, debug}

  pub data CalculateFeeError : Type 0 where
    missing_tx_out : List P.OutPoint → CalculateFeeError
    negative_fee : String → CalculateFeeError

  pub data BdkCalculateFeeError : Type 0 where
    missing_tx_out : List P.OutPoint → BdkCalculateFeeError
    negative_fee : Payload → BdkCalculateFeeError

  -- `impl From<BdkBip39Error> for Bip39Error`
  unfoldable pub from_bip39 : BdkBip39Error Payload → Outcome Bip39Error
  from_bip39 (BdkBip39Error.bad_word_count word_count) =
      and_then (expect_u64 word_count) λ n. returns (Bip39Error.bad_word_count n)
  from_bip39 (BdkBip39Error.unknown_word index) =
      and_then (expect_u64 index) λ n. returns (Bip39Error.unknown_word n)
  from_bip39 (BdkBip39Error.bad_entropy_bit_count bit_count) =
      and_then (expect_u64 bit_count) λ n. returns (Bip39Error.bad_entropy_bit_count n)
  from_bip39 BdkBip39Error.invalid_checksum = returns Bip39Error.invalid_checksum
  from_bip39 (BdkBip39Error.ambiguous_languages info) =
      returns (Bip39Error.ambiguous_languages (debug info))

  -- `impl From<BdkCalculateFeeError> for CalculateFeeError`
  unfoldable pub from_calculate_fee : BdkCalculateFeeError → CalculateFeeError
  from_calculate_fee (BdkCalculateFeeError.missing_tx_out out_points) =
      CalculateFeeError.missing_tx_out out_points
  from_calculate_fee (BdkCalculateFeeError.negative_fee signed_amount) =
      CalculateFeeError.negative_fee (to_string signed_amount)

  -- `impl From<std::io::Error> for PersistenceError`
  unfoldable pub from_io : Payload → PersistenceError
  from_io error = write (to_string error)

  -- `impl From<BdkSqliteError> for SqliteError`
  unfoldable pub from_sqlite : Payload → SqliteError
  from_sqlite error = sqlite (to_string error)

  -- `impl From<BdkHexToArrayError> for EsploraError`
  unfoldable pub from_hex_to_array : Payload → EsploraError
  from_hex_to_array error = EsploraError.parsing (to_string error)

  -- `impl From<PushBytesError> for CreateTxError`
  unfoldable pub from_push_bytes : Payload → CreateTxError
  from_push_bytes _ = CreateTxError.push_bytes_error
