-- ===== src/Psbt/Copies.antt =====
-- What `finalize`, `new` and `serialize` make of a PSBT.
use bdk_ffi.Prelude.{
  ℕ, ◌<◌, true, false, List, none, some, map, ok, err, Result-cases, returns, ◌⊎◌, inl, inr, ◌≡◌,
  ◌≢◌, refl, arith,
}
use bdk_ffi.Extern.{Primitives}
use bdk_ffi.Errors.PsbtFinalize.{BdkPsbtFinalizeError, from_psbt_finalize}
use bdk_ffi.Psbt.Library.{PsbtLibrary}
use bdk_ffi.Psbt.Store.{add, add_new}
use bdk_ffi.Psbt.Methods.{Psbts, FinalizedPsbtResult, new, serialize, finalize, finalized, parsed}

module _ (P : Primitives) (L : PsbtLibrary P) where
  -- The library finalizes the PSBT, and the result says so and has the finalized one.
  abbrev pub Succeeds : P.Psbt → FinalizedPsbtResult × Psbts P L → Type 0
  Succeeds before (r, s') =
      (psbt : P.Psbt) × (L.finalize before ≡ ok psbt)
      × (r.could_finalize ≡ true)
      × (r.errors ≡ none)
      × (s'.content r.psbt ≡ psbt)

  -- The library cannot finalize it, and the result has what it could do and all errors, in order.
  abbrev pub Fails : P.Psbt → FinalizedPsbtResult × Psbts P L → Type 0
  Fails before (r, s') =
      (psbt : P.Psbt) × (errors : List (BdkPsbtFinalizeError P.Payload)) × (L.finalize before
        ≡ err (psbt, errors))
      × (r.could_finalize ≡ false)
      × (r.errors ≡ some (map (from_psbt_finalize P) errors))
      × (s'.content r.psbt ≡ psbt)

  -- `Psbt::finalize` either reports success, without errors, and hands out the finalized PSBT; or
  -- it reports failure, with every error of the library converted and in order, and hands out the
  -- PSBT as far as it was finalized. It is success exactly if the library finalizes a copy of the
  -- PSBT.
  pub finalize-Succeeds :
      (h : ℕ) (s : Psbts P L)
      → Succeeds (s.content h) (finalize P L h s) ⊎ Fails (s.content h) (finalize P L h s)
  unfolding finalize finalized
  finalize-Succeeds h s = elim (Result-cases (L.finalize (s.content h))) [
    | inl (psbt, e) ↦ inl (rw (e, finalize) (psbt, refl, refl, refl, add_new psbt s))
    | inr ((psbt, errors), e) ↦
        inr (rw (e, finalize) (psbt, errors, refl, refl, refl, add_new psbt s))
  ]

  -- If the library reads back what it prints, a PSBT that is serialized and parsed again is a new
  -- PSBT with the same content: parsing neither fails nor panics, and the new one has another
  -- handle.
  pub new-serialize :
      (law : (psbt : P.Psbt) → L.from_str (L.to_string psbt) ≡ ok psbt) (h : ℕ) (s : Psbts P L)
      → h < s.next
      → (h' : ℕ) × (s' : Psbts P L) × (new P L (serialize P L h s) s ≡ returns (ok h', s'))
        × (s'.content h' ≡ s.content h)
        × (h' ≢ h)
  unfolding new serialize parsed add
  new-serialize law h s below =
      let (h', s') = add (s.content h) s in
      (h', s', rw (law (s.content h), new), add_new (s.content h) s, λ same. omega arith)
