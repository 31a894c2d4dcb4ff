-- ===== src/Errors/Transaction.antt =====
-- `TransactionError` of bdk-ffi/src/error.rs, the library's error that it stands for, and the conversion.
use bdk_ffi.Prelude.{ℕ, String}
use bdk_ffi.Extern.{Primitives}

-- `TransactionError`
pub data TransactionError : Type 0 where
  io : TransactionError
  oversized_vector_allocation : TransactionError
  invalid_checksum : String → String → TransactionError
  non_minimal_var_int : TransactionError
  parse_failed : TransactionError
  unsupported_segwit_flag : ℕ → TransactionError
  other_transaction_err : TransactionError

-- The library's error, over what its variants carry; it may have more variants, which `other` stands for, with the error
-- as a whole.
pub data BdkEncodeError (V : Type 0) : Type 0 where
  io : V → BdkEncodeError V
  oversized_vector_allocation : BdkEncodeError V
  invalid_checksum : V → V → BdkEncodeError V
  non_minimal_var_int : BdkEncodeError V
  parse_failed : V → BdkEncodeError V
  unsupported_segwit_flag : ℕ → BdkEncodeError V
  other : V → BdkEncodeError V

module _ (P : Primitives) where
  open P use {Payload, lower_hex}

  -- `impl From<BdkEncodeError> for TransactionError`
  unfoldable pub from_encode : BdkEncodeError Payload → TransactionError
  from_encode (BdkEncodeError.io _) = TransactionError.io
  from_encode BdkEncodeError.oversized_vector_allocation =
      TransactionError.oversized_vector_allocation
  from_encode (BdkEncodeError.invalid_checksum expected actual) =
      TransactionError.invalid_checksum (lower_hex expected) (lower_hex actual)
  from_encode BdkEncodeError.non_minimal_var_int = TransactionError.non_minimal_var_int
  from_encode (BdkEncodeError.parse_failed _) = TransactionError.parse_failed
  from_encode (BdkEncodeError.unsupported_segwit_flag flag) =
      TransactionError.unsupported_segwit_flag flag
  from_encode (BdkEncodeError.other _) = TransactionError.other_transaction_err
