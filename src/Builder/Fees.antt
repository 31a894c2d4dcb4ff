-- ===== src/Builder/Fees.antt =====
-- Which fee a `TxBuilder` asks for when both an absolute fee and a fee rate are set.
use bdk_ffi.Prelude.{List, ◌∷◌, ◌++◌, Option, none, some, ◌≡◌, refl, ◌∙◌, sym, ap}
use mathlib.Core.Path.{fun_ext}
use bdk_ffi.Prelude.Actions.{for_each, for_each-append}
use bdk_ffi.Extern.{Primitives}
use bdk_ffi.Builder.Inner.{BdkTxBuilder}
use bdk_ffi.Builder.Fluent.{TxBuilder}
use bdk_ffi.Builder.Fluent
use bdk_ffi.Builder.Finish.{conclude, finish}
use bdk_ffi.Builder.Calls.{Call, perform, perform_all, calls, before_fees, after_fees, if_set}
use bdk_ffi.Builder.Calls
use bdk_ffi.Builder.Calls.Refinement.{finish-calls}

module _ (P : Primitives) (I : BdkTxBuilder P) where
  -- The library keeps one fee policy: the later of two calls decides.
  abbrev pub FeePolicyReplaced : Type 0
  FeePolicyReplaced =
      (rate : P.FeeRate) (amount : P.Amount) (s : I.Builder)
      → I.fee_absolute amount (I.fee_rate rate s) ≡ I.fee_absolute amount s

  -- Two lists of calls act alike.
  abbrev Alike : List (Call P) → List (Call P) → Type 0
  Alike xs ys = (s : I.Builder) → perform_all P I xs s ≡ perform_all P I ys s

  append-Alike : (before xs ys : List (Call P)) → Alike xs ys → Alike (before ++ xs) (before ++ ys)
  append-Alike before xs ys h s = rw (
    for_each-append (perform P I) before xs s,
    for_each-append (perform P I) before ys s,
    fun_ext h,
  )

  fees-Alike :
      (law : FeePolicyReplaced) (old : Option P.FeeRate) (amount : P.Amount) (rest : List (Call P))
      → Alike
          (if_set P Calls.fee_rate old ++ (Calls.fee_absolute amount ∷ rest))
          (Calls.fee_absolute amount ∷ rest)
  unfolding for_each
  fees-Alike law none amount rest s = refl
  fees-Alike law (some rate) amount rest s = ap (perform_all P I rest) (law rate amount s)

  -- With an absolute fee set, the fee rate does not matter.
  calls-Alike :
      (law : FeePolicyReplaced) (b : TxBuilder P) (amount : P.Amount)
      → b.fee_absolute ≡ some amount
      → Alike (calls P I.iterate b) (calls P I.iterate (record b { fee_rate = none }))
  calls-Alike law b amount e = rw e (
      append-Alike (before_fees P I.iterate b) _ _
        (fees-Alike law b.fee_rate amount (after_fees P b)))

  finish-no_rate :
      (law : FeePolicyReplaced) (b : TxBuilder P) (amount : P.Amount) (wallet : P.Wallet)
      → b.fee_absolute ≡ some amount
      → finish P I b wallet ≡ finish P I (record b { fee_rate = none }) wallet
  finish-no_rate law b amount wallet e =
      finish-calls P I b wallet
      ∙ ap (conclude P I) (calls-Alike law b amount e (I.build_tx wallet))
      ∙ sym (finish-calls P I (record b { fee_rate = none }) wallet)

  -- If the library lets the later of two fee policies replace the earlier, a fee rate that is set
  -- after an absolute fee has no effect at all: `finish` gives the same result and the same wallet
  -- as without it.
  pub fee_rate-fee_absolute :
      (law : FeePolicyReplaced) (rate : P.FeeRate) (amount : P.Amount) (b : TxBuilder P)
      (wallet : P.Wallet)
      → finish P I (Fluent.fee_rate P rate (Fluent.fee_absolute P amount b)) wallet
        ≡ finish P I (Fluent.fee_absolute P amount b) wallet
  unfolding Fluent.fee_rate Fluent.fee_absolute
  fee_rate-fee_absolute law rate amount b wallet =
      finish-no_rate law (record b { fee_rate = some rate; fee_absolute = some amount }) amount
        wallet refl
      ∙ sym (finish-no_rate law (record b { fee_absolute = some amount }) amount wallet refl)
