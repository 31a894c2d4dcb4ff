-- ===== src/Bitcoin/Transaction/Decoding.antt =====
-- Which bytes `Transaction::new` accepts.
use bdk_ffi.Prelude.{ℕ, List, ◌++◌, ok, Result-cases, inl, inr, ◌≡◌, ◌↔◌, arith}
use bdk_ffi.Extern.{Primitives}
use bdk_ffi.Bitcoin.Library.{BitcoinLibrary, BdkTransaction}
use bdk_ffi.Bitcoin.Transaction.{Transaction, new, serialize}

-- What the library promises of the encoding: a transaction is decoded from the front of any bytes that begin with it, and
-- decoding takes nothing but what encoding gives.
pub record IsEncoding (P : Primitives) (L : BitcoinLibrary P) : Type 0 where
  pub decode-serialize :
      (tx : BdkTransaction P) (rest : List ℕ)
      → L.consensus_decode (L.serialize tx ++ rest) ≡ ok (tx, rest)
  pub serialize-decode :
      (bytes rest : List ℕ) (tx : BdkTransaction P)
      → L.consensus_decode bytes ≡ ok (tx, rest)
      → bytes ≡ L.serialize tx ++ rest

module _ (P : Primitives) (L : BitcoinLibrary P) (law : IsEncoding P L) where
  -- If the library's decoder reads from the front of the bytes exactly what its encoder writes, then
  -- `Transaction::new` gives a transaction if and only if the bytes begin with what `serialize` gives
  -- for it, whatever follows: bytes after the transaction are ignored.
  pub new-eq-ok :
      (bytes : List ℕ) (tx : Transaction P)
      → (new P L bytes ≡ ok tx) ↔ ((rest : List ℕ) × (bytes ≡ serialize P L tx ++ rest))
  unfolding new serialize
  new-eq-ok bytes tx = (
    λ same. elim (Result-cases (L.consensus_decode bytes)) [
      | inl ((found, rest), e) ↦
          let is_tx : found ≡ tx = ground arith in
          (rest, rw (← is_tx) (law.serialize-decode bytes rest found e))
      | inr (error, e) ↦ ground arith
    ],
    λ (rest, e). rw (e, law.decode-serialize tx rest),
  )
