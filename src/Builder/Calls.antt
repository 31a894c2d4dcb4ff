-- ===== src/Builder/Calls.antt =====
-- The calls that the two `finish` functions make on the library's builder, as a list.
pub mod Refinement
use bdk_ffi.Prelude.{
  ℕ, Bool, true, false, List, [], ◌∷◌, ◌++◌, Option, none, some, map, ◌≡◌, refl, ◌∙◌, sym, ap,
  Result, ok, err, is_empty, not,
}
use mathlib.Core.Path.{fun_ext}
use mathlib.Core.List.{append-nil}
use bdk_ffi.Prelude.Actions.{
  Action, resume, ◌>>◌, effect, when, when_some, for_each, for_each-append,
}
use bdk_ffi.Extern.{Primitives, KeychainKind, external, internal, ChangeSpendPolicy}
use bdk_ffi.Errors.CreateTx.{CreateTxError}
use bdk_ffi.Types.LockTime.{LockTime}
use bdk_ffi.Builder.Inner.{BdkTxBuilder, PolicyPath}
use bdk_ffi.Builder.Fluent.{TxBuilder}
use bdk_ffi.Builder.BumpFee.{BumpFeeTxBuilder}
use bdk_ffi.Builder.BumpFee
use bdk_ffi.Builder.Finish.{
  Step, select_utxos, attach_data, set_locktime, prepare, conclude, finish,
}

module _ (P : Primitives) where
  open P use {Script, Amount, FeeRate, OutPoint}

  pub data Call : Type 0 where
    add_global_xpubs : Call
    add_recipient : Script × Amount → Call
    policy_path : KeychainKind → PolicyPath → Call
    change_policy : ChangeSpendPolicy → Call
    add_utxos : List OutPoint → Call
    unspendable : List OutPoint → Call
    manually_selected_only : Call
    fee_rate : FeeRate → Call
    fee_absolute : Amount → Call
    drain_wallet : Call
    drain_to : Script → Call
    set_exact_sequence : ℕ → Call
    add_data : List ℕ → Call
    current_height : ℕ → Call
    nlocktime : LockTime → Call
    allow_dust : Bool → Call
    version : ℕ → Call

  abbrev pub only_if : Bool → Call → List Call
  only_if true c = c ∷ []
  only_if false c = []

  abbrev pub if_set : {A : Type 0} → (A → Call) → Option A → List Call
  if_set c none = []
  if_set c (some a) = c a ∷ []

  -- The calls for the fields that are handed over after the fees.
  abbrev pub after_fees : TxBuilder P → List Call
  after_fees b =
      only_if b.drain_wallet drain_wallet
      ++ (if_set drain_to b.drain_to
          ++ (if_set set_exact_sequence b.sequence
              ++ (only_if (not (is_empty b.payload)) (add_data b.payload)
                  ++ (if_set current_height b.current_height
                      ++ (if_set nlocktime b.locktime
                          ++ (only_if b.allow_dust (allow_dust true)
                              ++ if_set version b.version))))))

  -- Those before the fees. `iterate` is the order in which the hash set gives its elements.
  abbrev pub before_fees : (List OutPoint → List OutPoint) → TxBuilder P → List Call
  before_fees iterate b =
      only_if b.add_global_xpubs add_global_xpubs
      ++ (map add_recipient b.recipients
          ++ (if_set (policy_path external) b.external_policy_path
              ++ (if_set (policy_path internal) b.internal_policy_path
                  ++ ((change_policy b.change_policy ∷ [])
                      ++ (only_if (not (is_empty b.utxos)) (add_utxos b.utxos)
                          ++ (only_if (not (is_empty b.unspendable))
                                (unspendable (iterate b.unspendable))
                              ++ only_if b.manually_selected_only manually_selected_only))))))

  -- All calls of a builder.
  abbrev pub calls : (List OutPoint → List OutPoint) → TxBuilder P → List Call
  calls iterate b =
      before_fees iterate b
      ++ (if_set fee_rate b.fee_rate ++ (if_set fee_absolute b.fee_absolute ++ after_fees b))

  abbrev pub bump_calls : BumpFeeTxBuilder P → List Call
  bump_calls b =
      (fee_rate b.fee_rate ∷ [])
      ++ (if_set set_exact_sequence b.sequence
          ++ (if_set current_height b.current_height
              ++ (if_set nlocktime b.locktime
                  ++ (only_if b.allow_dust (allow_dust true) ++ if_set version b.version))))

module _ (P : Primitives) (I : BdkTxBuilder P) where
  -- One call, with what it converts on the way and the error it may end in.
  abbrev pub perform : Call P → Step P I
  perform add_global_xpubs = effect I.add_global_xpubs
  perform (add_recipient (script, amount)) = effect (I.add_recipient script amount)
  perform (policy_path keychain path) = effect (I.policy_path path keychain)
  perform (change_policy policy) = effect (I.change_policy policy)
  perform (add_utxos utxos) = select_utxos P I utxos
  perform (unspendable outpoints) = effect (I.unspendable outpoints)
  perform manually_selected_only = effect I.manually_selected_only
  perform (fee_rate rate) = effect (I.fee_rate rate)
  perform (fee_absolute amount) = effect (I.fee_absolute amount)
  perform drain_wallet = effect I.drain_wallet
  perform (drain_to script) = effect (I.drain_to script)
  perform (set_exact_sequence sequence) = effect (I.set_exact_sequence sequence)
  perform (add_data bytes) = attach_data P I bytes
  perform (current_height height) = effect (I.current_height height)
  perform (nlocktime locktime) = set_locktime P I locktime
  perform (allow_dust allow) = effect (I.allow_dust allow)
  perform (version number) = effect (I.version number)

  abbrev pub perform_all : List (Call P) → Step P I
  perform_all = for_each perform

  -- The step makes these calls, in this order, up to the first that fails.
  abbrev pub Makes : Step P I → List (Call P) → Type 0
  Makes m calls = (s : I.Builder) → m s ≡ perform_all calls s

  resume_nothing :
      (r : Result (Unit {0}) CreateTxError × I.Builder) → r ≡ resume (λ _ s. (ok tt, s)) r
  resume_nothing (ok _, s) = refl
  resume_nothing (err e, s) = refl

  pub one-Makes : (c : Call P) → Makes (perform c) (c ∷ [])
  unfolding for_each
  one-Makes c s = resume_nothing (perform c s)

  pub then-Makes :
      (m k : Step P I) (calls more : List (Call P))
      → Makes m calls
      → Makes k more
      → Makes (m >> k) (calls ++ more)
  then-Makes m k calls more hm hk s = rw (for_each-append perform calls more s, hm s, fun_ext hk)

  pub when-Makes : (b : Bool) (c : Call P) → Makes (when b (perform c)) (only_if P b c)
  unfolding for_each
  when-Makes true c s = one-Makes c s
  when-Makes false c s = refl

  pub when_some-Makes :
      {A : Type 0} (o : Option A) (c : A → Call P)
      → Makes (when_some o (λ a. perform (c a))) (if_set P c o)
  unfolding for_each
  when_some-Makes none c s = refl
  when_some-Makes (some a) c s = one-Makes (c a) s
