-- ===== src/Psbt/Commands.antt =====
-- Any sequence of the calls on PSBTs that make or change one, and what it leaves alone.
use bdk_ffi.Prelude.{
  ℕ, ◌<◌, String, List, [], ◌∷◌, Option, none, some, Result, ok, err, Outcome, returns, panics, All,
  ◌≡◌, ◌≢◌, refl, ◌∙◌, ap, arith,
}
use bdk_ffi.Extern.{Primitives}
use bdk_ffi.Errors.Extract.{PsbtParseError, BdkPsbtParseError, from_psbt_parse}
use bdk_ffi.Errors.Psbt.{BdkPsbtError}
use bdk_ffi.Errors.PsbtFinalize.{BdkPsbtFinalizeError}
use bdk_ffi.Psbt.Library.{PsbtLibrary}
use bdk_ffi.Psbt.Store.{put, add, put_other, add_old}
use bdk_ffi.Psbt.Methods.{SignOptions, Psbts, parsed, combined, finalized}
use bdk_ffi.Psbt.Methods

module _ (P : Primitives) (L : PsbtLibrary P) where
  pub data Command : Type 0 where
    new : String → Command
    combine : ℕ → ℕ → Command
    finalize : ℕ → Command
    sign : P.Wallet → ℕ → Option SignOptions → Command
    finalize_psbt : P.Wallet → ℕ → Option SignOptions → Command

  -- The PSBTs after a call that may panic.
  abbrev after : Outcome (Result ℕ PsbtParseError × Psbts P L) → Psbts P L → Psbts P L
  after (returns (_, s')) s = s'
  after panics s = s

  pub step : Command → Psbts P L → Psbts P L
  unfolding Methods.new Methods.combine Methods.finalize Methods.sign Methods.finalize_psbt
  step (new text) s = after (Methods.new P L text s) s
  step (combine h other) s = (Methods.combine P L h other s).1
  step (finalize h) s = (Methods.finalize P L h s).1
  step (sign wallet h options) s = (Methods.sign P L wallet h options s).1
  step (finalize_psbt wallet h options) s = (Methods.finalize_psbt P L wallet h options s).1

  pub run : List Command → Psbts P L → Psbts P L
  unfolding step
  run [] s = s
  run (c ∷ cs) s = run cs (step c s)

  -- The PSBT that a call changes in place.
  abbrev pub changes : Command → Option ℕ
  changes (sign wallet h options) = some h
  changes (finalize_psbt wallet h options) = some h
  changes _ = none

  -- The PSBT at a handle that has been given out is the same in both stores, and in both the handle has been.
  abbrev Keeps : ℕ → Psbts P L → Psbts P L → Type 0
  Keeps k s s' = (k < s'.next) × (s'.content k ≡ s.content k)

  add-Keeps : (k : ℕ) (psbt : P.Psbt) (s : Psbts P L) → k < s.next → Keeps k s (add psbt s).1
  unfolding add
  add-Keeps k psbt s below = (omega arith, add_old psbt k s below)

  put-Keeps :
      (h k : ℕ) (psbt : P.Psbt) (s : Psbts P L) → k < s.next → h ≢ k → Keeps k s (put h psbt s)
  unfolding put
  put-Keeps h k psbt s below different = (below, put_other h k psbt s different)

  parsed-Keeps :
      (k : ℕ) (r : Result P.Psbt (BdkPsbtParseError P.Payload)) (s : Psbts P L)
      → k < s.next
      → Keeps k s (after (parsed P L r s) s)
  unfolding parsed from_psbt_parse
  parsed-Keeps k (ok psbt) s below = add-Keeps k psbt s below
  parsed-Keeps k (err (BdkPsbtParseError.psbt_encoding e)) s below = (below, refl)
  parsed-Keeps k (err (BdkPsbtParseError.base64_encoding e)) s below = (below, refl)
  parsed-Keeps k (err (BdkPsbtParseError.other e)) s below = (below, refl)

  combined-Keeps :
      (k : ℕ) (r : Result (Unit {0}) (BdkPsbtError P.Payload) × P.Psbt) (s : Psbts P L)
      → k < s.next
      → Keeps k s (combined P L r s).1
  unfolding combined
  combined-Keeps k (ok _, psbt) s below = add-Keeps k psbt s below
  combined-Keeps k (err e, psbt) s below = (below, refl)

  finalized-Keeps :
      (k : ℕ) (r : Result P.Psbt (P.Psbt × List (BdkPsbtFinalizeError P.Payload))) (s : Psbts P L)
      → k < s.next
      → Keeps k s (finalized P L r s).1
  unfolding finalized
  finalized-Keeps k (ok psbt) s below = add-Keeps k psbt s below
  finalized-Keeps k (err (psbt, errors)) s below = add-Keeps k psbt s below

  step-Keeps :
      (k : ℕ) (c : Command) (s : Psbts P L) → k < s.next → changes c ≢ some k → Keeps k s (step c s)
  unfolding step
  step-Keeps k (new text) s below other = parsed-Keeps k (L.from_str text) s below
  step-Keeps k (combine h h') s below other =
      combined-Keeps k (L.combine (s.content h) (s.content h')) s below
  step-Keeps k (finalize h) s below other = finalized-Keeps k (L.finalize (s.content h)) s below
  step-Keeps k (sign wallet h options) s below other =
      put-Keeps h k _ s below (λ same. other (ap some same))
  step-Keeps k (finalize_psbt wallet h options) s below other =
      put-Keeps h k _ s below (λ same. other (ap some same))

  -- A PSBT changes only by calls of `sign` and `finalize_psbt` on its own handle: over any sequence
  -- of calls with none of these, the PSBT at a handle that was given out before stays what it was,
  -- even where it is combined or finalized with `Psbt::finalize` on the way, and whatever is done
  -- to the copies.
  pub run-content :
      (k : ℕ) (cs : List Command) (s : Psbts P L)
      → k < s.next
      → All (λ c. changes c ≢ some k) cs
      → (run cs s).content k ≡ s.content k
  unfolding run
  run-content k [] s below others = refl
  run-content k (c ∷ cs) s below (other, others) =
      let (below', same) = step-Keeps k c s below other in
      run-content k cs (step c s) below' others ∙ same
