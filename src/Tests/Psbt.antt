-- ===== src/Tests/Psbt.antt =====
-- PSBTs that are texts, and the theorems on PSBTs at them.
use bdk_ffi.Prelude.{
  ℕ, true, false, String, List, [], ◌∷◌, none, some, ok, err, returns, ◌⊎◌, ◌≡◌, ◌≢◌, refl, arith,
  suc, zero,
}
use bdk_ffi.Errors.PsbtFinalize.{BdkPsbtFinalizeError}
use bdk_ffi.Types.LockTime.{BdkLockTime}
use bdk_ffi.Bitcoin.Library.{BdkTransaction}
use bdk_ffi.Psbt.Library.{PsbtLibrary}
use bdk_ffi.Psbt.Methods.{Psbts, new, serialize, finalize}
use bdk_ffi.Psbt.Commands.{Command, run, run-content}
use bdk_ffi.Psbt.Copies.{Succeeds, Fails, finalize-Succeeds, new-serialize}
use bdk_ffi.Tests.Primitives.{numbers}

abbrev unsigned : BdkTransaction numbers
unsigned = record { version = 2; lock_time = BdkLockTime.seconds 0; input = []; output = [] }

abbrev texts : PsbtLibrary numbers
texts = record {
  JsonError = String;
  TapLeavesOptions = ℕ;
  default_tap_leaves = 0;
  default_sign_options = record {
    trust_witness_utxo = false;
    assume_height = none;
    allow_all_sighashes = false;
    try_finalize = true;
    tap_leaves_options = 0;
    sign_with_tap_internal_key = true;
    allow_grinding = true;
  };
  to_sat_per_vb_ceil = λ rate. rate;
  to_sat = λ amount. amount;
  from_str = λ text. ok text;
  to_string = λ psbt. psbt;
  to_json = λ psbt. ok psbt;
  extract_tx = λ psbt. ok unsigned;
  fee = λ psbt. ok 100;
  combine = λ psbt other. (ok tt, "combined");
  finalize = λ psbt. err (psbt, BdkPsbtFinalizeError.wrong_input_count 2 1 ∷ []);
  sign = λ wallet psbt options. (ok true, "signed");
  finalize_psbt = λ wallet psbt options. (ok true, "finalized");
}

-- Two PSBTs.
abbrev start : Psbts numbers texts
start = record { content = λ h. elim h [ zero ↦ "first" | suc _ ↦ "second" ]; next = 2 }

abbrev calls : List (Command numbers texts)
calls =
    Command.sign 0 1 none
    ∷ Command.combine 0 1
    ∷ Command.finalize 0
    ∷ Command.finalize_psbt 0 2 none
    ∷ Command.new "third"
    ∷ []

not_first : (n : ℕ) → some (suc n) ≢ some 0
not_first n same = ground arith

run-content_example : (run numbers texts calls start).content 0 ≡ "first"
run-content_example = run-content numbers texts 0 calls start (omega arith) (
  not_first 0,
  ((λ same. ground arith), ((λ same. ground arith), (not_first 1, ((λ same. ground arith), tt)))),
)

finalize-Succeeds_example :
    Succeeds numbers texts "first" (finalize numbers texts 0 start)
    ⊎ Fails numbers texts "first" (finalize numbers texts 0 start)
finalize-Succeeds_example = finalize-Succeeds numbers texts 0 start

new-serialize_example :
    (h' : ℕ) × (s' : Psbts numbers texts) × (new numbers texts
        (serialize numbers texts 1 start)
        start
      ≡ returns (ok h', s'))
    × (s'.content h' ≡ "second")
    × (h' ≢ 1)
new-serialize_example = new-serialize numbers texts (λ psbt. refl) 1 start (omega arith)
