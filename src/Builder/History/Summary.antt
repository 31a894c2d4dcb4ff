-- ===== src/Builder/History/Summary.antt =====
-- The state of a `TxBuilder` after any chain of fluent calls, from the calls alone.
use mathlib.Core.Option
use mathlib.Core.Option.{get_or}
use bdk_ffi.Prelude.{
  ℕ, Bool, true, false, List, [], ◌∷◌, Option, none, some, map, cast, ◌≡◌, refl, sym, ◌∙◌, ap,
  if◌then◌else◌, arith,
}
use bdk_ffi.Prelude.HashSet.{
  eq, contains, Distinct, insert-Distinct, contains-insert, contains-from_iter, from_iter-Distinct,
  from_iter, from_iter-append_one,
}
use bdk_ffi.Extern.{
  Primitives, external, internal, ChangeSpendPolicy, change_allowed, only_change, change_forbidden,
}
use bdk_ffi.Types.LockTime.{LockTime}
use bdk_ffi.Builder.Inner.{PolicyPath}
use bdk_ffi.Builder.Fluent.{TxBuilder}
use bdk_ffi.Builder.History.{
  Setting, add_global_xpubs, add_recipient, set_recipients, add_unspendable, unspendable, add_utxo,
  add_utxos, policy_path, change_policy, do_not_spend_change, only_spend_change,
  manually_selected_only, fee_rate, fee_absolute, drain_wallet, drain_to, set_exact_sequence,
  add_data, current_height, nlocktime, allow_dust, version, apply, built, Change, appends, replaces,
  keeps, gathered, latest,
}

module _ (P : Primitives) where
  open P use {Script, Amount, FeeRate, OutPoint, outpoint_discrete, usize_bits}

  abbrev recipients_of : Setting P → Change (Script × Amount)
  recipients_of (add_recipient script amount) = appends ((script, amount) ∷ [])
  recipients_of (set_recipients recipients) = replaces recipients
  recipients_of _ = keeps

  abbrev utxos_of : Setting P → Change OutPoint
  utxos_of (add_utxo outpoint) = appends (outpoint ∷ [])
  utxos_of (add_utxos outpoints) = appends outpoints
  utxos_of _ = keeps

  abbrev unspendable_of : Setting P → Change OutPoint
  unspendable_of (add_unspendable outpoint) = appends (outpoint ∷ [])
  unspendable_of (unspendable outpoints) = replaces outpoints
  unspendable_of _ = keeps

  -- The indices of a policy path are cut to `usize`.
  abbrev as_usize : PolicyPath → PolicyPath
  as_usize path key = Option.map (map (cast usize_bits)) (path key)

  abbrev internal_path_of : Setting P → Option PolicyPath
  internal_path_of (policy_path path internal) = some (as_usize path)
  internal_path_of _ = none

  abbrev external_path_of : Setting P → Option PolicyPath
  external_path_of (policy_path path external) = some (as_usize path)
  external_path_of _ = none

  abbrev policy_of : Setting P → Option ChangeSpendPolicy
  policy_of (change_policy policy) = some policy
  policy_of do_not_spend_change = some change_forbidden
  policy_of only_spend_change = some only_change
  policy_of _ = none

  abbrev global_xpubs_of : Setting P → Option Bool
  global_xpubs_of add_global_xpubs = some true
  global_xpubs_of _ = none

  abbrev manual_of : Setting P → Option Bool
  manual_of manually_selected_only = some true
  manual_of _ = none

  abbrev drains_of : Setting P → Option Bool
  drains_of drain_wallet = some true
  drains_of _ = none

  abbrev dust_of : Setting P → Option Bool
  dust_of (allow_dust allow) = some allow
  dust_of _ = none

  abbrev rate_of : Setting P → Option FeeRate
  rate_of (fee_rate rate) = some rate
  rate_of _ = none

  abbrev fee_of : Setting P → Option Amount
  fee_of (fee_absolute amount) = some amount
  fee_of _ = none

  abbrev drain_to_of : Setting P → Option Script
  drain_to_of (drain_to script) = some script
  drain_to_of _ = none

  abbrev sequence_of : Setting P → Option ℕ
  sequence_of (set_exact_sequence nsequence) = some nsequence
  sequence_of _ = none

  abbrev data_of : Setting P → Option (List ℕ)
  data_of (add_data bytes) = some bytes
  data_of _ = none

  abbrev height_of : Setting P → Option ℕ
  height_of (current_height height) = some height
  height_of _ = none

  abbrev locktime_of : Setting P → Option LockTime
  locktime_of (nlocktime locktime) = some locktime
  locktime_of _ = none

  abbrev version_of : Setting P → Option ℕ
  version_of (version number) = some number
  version_of _ = none

  -- Each field, from the calls that concern it.
  abbrev pub summary : List (Setting P) → TxBuilder P
  summary h = record {
    add_global_xpubs = get_or (latest global_xpubs_of h) false;
    recipients = gathered recipients_of h;
    utxos = gathered utxos_of h;
    unspendable = from_iter outpoint_discrete (gathered unspendable_of h);
    internal_policy_path = latest internal_path_of h;
    external_policy_path = latest external_path_of h;
    change_policy = get_or (latest policy_of h) change_allowed;
    manually_selected_only = get_or (latest manual_of h) false;
    fee_rate = latest rate_of h;
    fee_absolute = latest fee_of h;
    drain_wallet = get_or (latest drains_of h) false;
    drain_to = latest drain_to_of h;
    sequence = latest sequence_of h;
    payload = get_or (latest data_of h) [];
    current_height = latest height_of h;
    locktime = latest locktime_of h;
    allow_dust = get_or (latest dust_of h) false;
    version = latest version_of h;
  }

  apply-summary : (s : Setting P) (h : List (Setting P)) → apply P s (summary h) ≡ summary (s ∷ h)
  unfolding apply built
  apply-summary add_global_xpubs h = refl
  apply-summary (policy_path path internal) h = refl
  apply-summary (policy_path path external) h = refl
  apply-summary (add_unspendable y) h = λ i. record (summary h) {
    unspendable = sym (from_iter-append_one outpoint_discrete (gathered unspendable_of h) y) i;
  }
  apply-summary _ h = refl

  -- After any chain of fluent calls, each field of a `TxBuilder` is what the chain says of it: a
  -- list is what was appended to it since it was last replaced, in order, and the set of
  -- unspendable outpoints is collected from a list of that kind; an option is the value of the
  -- latest call that sets it, and a flag or a policy that of the latest call or else its default;
  -- the two policy paths are kept apart by keychain.
  pub built-summary : (h : List (Setting P)) → built P h ≡ summary h
  unfolding built from_iter
  built-summary [] = refl
  built-summary (s ∷ h) = ap (apply P s) (built-summary h) ∙ apply-summary s h

  -- Whether a call says that `x` must not be spent.
  abbrev marks : OutPoint → Setting P → Option Bool
  marks x (add_unspendable y) = if eq outpoint_discrete x y then some true else none
  marks x (unspendable ys) = some (contains outpoint_discrete x ys)
  marks x _ = none

  -- After any chain of fluent calls, an outpoint is in the set of unspendable ones exactly if the
  -- latest call that concerns it puts it there: `add_unspendable` of that outpoint does, and
  -- `unspendable` does or does not by whether its list has the outpoint.
  pub contains-unspendable :
      (x : OutPoint) (h : List (Setting P))
      → contains outpoint_discrete x (built P h).unspendable ≡ get_or (latest (marks x) h) false
  unfolding built contains
  contains-unspendable x [] = refl
  contains-unspendable x (add_unspendable y ∷ h) =
      rw (contains-insert outpoint_discrete x y (built P h).unspendable, contains-unspendable x h)
        (ground arith)
  contains-unspendable x (unspendable ys ∷ h) = contains-from_iter outpoint_discrete x ys
  contains-unspendable x (policy_path path internal ∷ h) = contains-unspendable x h
  contains-unspendable x (policy_path path external ∷ h) = contains-unspendable x h
  contains-unspendable x (_ ∷ h) = contains-unspendable x h

  -- After any chain of fluent calls, the set of unspendable outpoints holds none of them twice.
  unspendable-Distinct : (h : List (Setting P)) → Distinct outpoint_discrete (built P h).unspendable
  unfolding built
  unspendable-Distinct [] = tt
  unspendable-Distinct (add_unspendable y ∷ h) =
      insert-Distinct outpoint_discrete y _ (unspendable-Distinct h)
  unspendable-Distinct (unspendable ys ∷ h) = from_iter-Distinct outpoint_discrete ys
  unspendable-Distinct (policy_path path internal ∷ h) = unspendable-Distinct h
  unspendable-Distinct (policy_path path external ∷ h) = unspendable-Distinct h
  unspendable-Distinct (_ ∷ h) = unspendable-Distinct h
