-- ===== src/Tests/Builder.antt =====
-- A library builder that records its calls, and the theorems on the two transaction builders at it.
use native.Mathlib.Decide.{ℕ_discrete}
use bdk_ffi.Prelude.{ℕ, ◌+◌, true, List, [], ◌∷◌, ◌++◌, Result, ok, err, ◌≡◌, refl}
use bdk_ffi.Prelude.HashSet.{contains}
use bdk_ffi.Errors.CreateTx.{AddUtxoError}
use bdk_ffi.Types.LockTime.{LockTime}
use bdk_ffi.Builder.Inner.{BdkTxBuilder}
use bdk_ffi.Builder.Fluent.{TxBuilder}
use bdk_ffi.Builder.Fluent
use bdk_ffi.Builder.BumpFee.{BumpFeeTxBuilder}
use bdk_ffi.Builder.BumpFee
use bdk_ffi.Builder.Finish.{conclude, finish}
use bdk_ffi.Builder.Calls.{perform_all, calls, bump_calls}
use bdk_ffi.Builder.Calls.Refinement.{finish-calls, finish-bump_calls}
use bdk_ffi.Builder.Fees.{fee_rate-fee_absolute}
use bdk_ffi.Builder.History.{Setting, built}
use bdk_ffi.Builder.History.Summary.{summary, built-summary, contains-unspendable}
use bdk_ffi.Builder.Outcome.{finish-Ends}
use bdk_ffi.Builder.Outcome
use bdk_ffi.Builder.BumpOutcome.{bump_finish-Ends}
use bdk_ffi.Builder.BumpOutcome
use bdk_ffi.Extern.{Primitives}
use bdk_ffi.Tests.Primitives.{numbers}

-- What the recording builder has seen: a log, and the fee policy that was set last.
pub record Recorder : Type 0 where
  pub log : List ℕ
  pub fee : ℕ

-- Wallets that are the number of transactions that were built, and PSBTs that are what was seen.
abbrev pub recorders : Primitives
recorders = record numbers { Wallet = ℕ; Psbt = Recorder }

abbrev pub logged : ℕ → Recorder → Recorder
logged entry s = record s { log = s.log ++ (entry ∷ []) }

-- The wallet refuses a second output.
abbrev known : List ℕ → Recorder → Result (Unit {0}) (AddUtxoError recorders) × Recorder
known (x ∷ y ∷ rest) s = (err (AddUtxoError.unknown_utxo y), s)
known _ s = (ok tt, logged 6 s)

abbrev pub recording : BdkTxBuilder recorders
recording = record {
  Builder = Recorder;
  build_tx = λ wallet. record { log = wallet ∷ []; fee = 1 };
  build_fee_bump = λ txid wallet. ok (record { log = wallet ∷ []; fee = 1 });
  add_global_xpubs = logged 1;
  add_recipient = λ script amount. logged (script + amount);
  policy_path = λ path kind. logged 3;
  change_policy = λ policy. logged 4;
  add_utxos = known;
  unspendable = λ outpoints. logged 7;
  manually_selected_only = logged 8;
  fee_rate = λ rate s. record s { fee = rate };
  fee_absolute = λ amount s. record s { fee = amount };
  drain_wallet = logged 11;
  drain_to = λ script. logged 12;
  set_exact_sequence = λ sequence. logged 13;
  add_data = λ bytes. logged 14;
  current_height = λ height. logged 15;
  nlocktime = λ locktime. logged 16;
  allow_dust = λ allow. logged 17;
  version = λ number. logged 18;
  finish = λ s. (ok s, 2);
  release = λ s. 1;
  iterate = λ outpoints. outpoints;
}

-- A chain of calls, the latest first, and the builder that it leaves.
abbrev chain : List (Setting recorders)
chain =
    Setting.fee_absolute 500
    ∷ Setting.add_unspendable 7
    ∷ Setting.unspendable (5 ∷ 7 ∷ 5 ∷ [])
    ∷ Setting.add_recipient 40 2
    ∷ Setting.nlocktime (LockTime.blocks 800000)
    ∷ Setting.add_utxo 9
    ∷ []

abbrev payment : TxBuilder recorders
payment = built recorders chain

abbrev bump : BumpFeeTxBuilder recorders
bump = BumpFee.nlocktime recorders (LockTime.seconds 1700000000) (BumpFee.new recorders "txid" 3)

finish-calls_example :
    finish recorders recording payment 0
    ≡ conclude recorders recording
        (perform_all recorders recording (calls recorders (λ x. x) payment) (recording.build_tx 0))
finish-calls_example = finish-calls recorders recording payment 0

finish-Ends_example :
    Outcome.Ends recorders recording payment 0 (finish recorders recording payment 0)
finish-Ends_example = finish-Ends recorders recording payment 0

finish-bump_calls_example :
    BumpFee.after_bump recorders recording bump (ok (recording.build_tx 0))
    ≡ conclude recorders recording
        (perform_all recorders recording (bump_calls recorders bump) (recording.build_tx 0))
finish-bump_calls_example = finish-bump_calls recorders recording bump (recording.build_tx 0)

bump_finish-Ends_example :
    BumpOutcome.Ends recorders recording bump 0 (BumpFee.finish recorders recording bump 0)
bump_finish-Ends_example = bump_finish-Ends recorders recording bump 0

built-summary_example : built recorders chain ≡ summary recorders chain
built-summary_example = built-summary recorders chain

contains-unspendable_example : contains ℕ_discrete 5 (built recorders chain).unspendable ≡ true
unfolding ℕ_discrete contains
contains-unspendable_example = contains-unspendable recorders 5 chain

fee_rate-fee_absolute_example :
    finish recorders recording
      (Fluent.fee_rate recorders 3 (Fluent.fee_absolute recorders 500 payment))
      0
    ≡ finish recorders recording (Fluent.fee_absolute recorders 500 payment) 0
fee_rate-fee_absolute_example =
    fee_rate-fee_absolute recorders recording (λ rate amount s. refl) 3 500 payment 0
