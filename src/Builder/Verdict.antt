-- ===== src/Builder/Verdict.antt =====
-- What the bindings themselves refuse, described from a builder's fields alone: data that does not fit
-- a push, and a lock time that is out of range. The steps of `finish` follow that verdict.
use bdk_ffi.Prelude.{
  ℕ, Bool, true, false, not, List, [], ◌∷◌, Option, none, some, ◌≡◌, refl, inl, inr, is_empty,
  Option-cases, Result, ok, err,
}
use bdk_ffi.Prelude.Actions.{◌>>◌, effect, when, when_some, for_each}
use bdk_ffi.Extern.{Primitives}
use bdk_ffi.Errors.CreateTx.{CreateTxError, push_bytes_error, lock_time_conversion_error}
use bdk_ffi.Types.LockTime.{LockTime, blocks, seconds, try_from}
use bdk_ffi.Builder.Inner.{BdkTxBuilder}
use bdk_ffi.Builder.Fluent.{TxBuilder}
use bdk_ffi.Builder.Finish.{Step, attach_data, set_locktime}

module _ (P : Primitives) where
  -- The error for what does not fit, from the library's verdict.
  abbrev pub unless_fits : {A : Type 0} → CreateTxError → Option A → Option CreateTxError
  unless_fits e none = some e
  unless_fits e (some a) = none

  abbrev pub data_error : List ℕ → Option CreateTxError
  data_error [] = none
  data_error (x ∷ xs) = unless_fits push_bytes_error (P.push_bytes (x ∷ xs))

  abbrev pub locktime_error : Option LockTime → Option CreateTxError
  locktime_error none = none
  locktime_error (some (blocks height)) =
      unless_fits lock_time_conversion_error (P.height_from height)
  locktime_error (some (seconds time)) = unless_fits lock_time_conversion_error (P.time_from time)

  abbrev pub first : Option CreateTxError → Option CreateTxError → Option CreateTxError
  first (some e) later = some e
  first none later = later

  -- What the bindings refuse before they ask the library to finish.
  abbrev pub refusal : TxBuilder P → Option CreateTxError
  refusal b = first (data_error b.payload) (locktime_error b.locktime)

module _ (P : Primitives) (I : BdkTxBuilder P) where
  -- A step that ends as the verdict says: it goes on, or it stops with the error.
  abbrev pub Follows : Option CreateTxError → Result (Unit {0}) CreateTxError × I.Builder → Type 0
  Follows none r = (s : I.Builder) × (r ≡ (ok tt, s))
  Follows (some e) r = (s : I.Builder) × (r ≡ (err e, s))

  pub data-Follows :
      (bytes : List ℕ) (s : I.Builder)
      → Follows (data_error P bytes) (when (not (is_empty bytes)) (attach_data P I bytes) s)
  unfolding attach_data
  data-Follows [] s = (s, refl)
  data-Follows (x ∷ xs) s = elim (Option-cases (P.push_bytes (x ∷ xs))) [
    | inl e ↦ rw e (s, refl)
    | inr (push, e) ↦ rw e (I.add_data push s, refl)
  ]

  pub locktime-Follows :
      (locktime : Option LockTime) (s : I.Builder)
      → Follows (locktime_error P locktime) (when_some locktime (set_locktime P I) s)
  unfolding set_locktime try_from
  locktime-Follows none s = (s, refl)
  locktime-Follows (some (blocks height)) s = elim (Option-cases (P.height_from height)) [
    | inl e ↦ rw e (s, refl)
    | inr (h, e) ↦ rw e (_, refl)
  ]
  locktime-Follows (some (seconds time)) s = elim (Option-cases (P.time_from time)) [
    | inl e ↦ rw e (s, refl)
    | inr (t, e) ↦ rw e (_, refl)
  ]

  -- Going on after a step that follows a verdict.
  pub then-Follows :
      (v w : Option CreateTxError) (m k : Step P I)
      → ((s : I.Builder) → Follows v (m s))
      → ((s : I.Builder) → Follows w (k s))
      → (s : I.Builder) → Follows (first P v w) ((m >> k) s)
  then-Follows none w m k hm hk s = rw (hm s).1 (hk (hm s).0)
  then-Follows (some e) w m k hm hk s = rw (hm s).1 ((hm s).0, refl)

  -- A step that cannot fail.
  abbrev pub Total : Step P I → Type 0
  Total m = (s : I.Builder) → Follows none (m s)

  pub when-Total : (b : Bool) (f : I.Builder → I.Builder) → Total (when b (effect f))
  when-Total true f s = (f s, refl)
  when-Total false f s = (s, refl)

  pub when_some-Total :
      {A : Type 0} (o : Option A) (f : A → I.Builder → I.Builder)
      → Total (when_some o (λ a. effect (f a)))
  when_some-Total none f s = (s, refl)
  when_some-Total (some a) f s = (f a s, refl)

  pub recipients-Total :
      (recipients : List (P.Script × P.Amount))
      → Total (for_each (λ (script, amount). effect (I.add_recipient script amount)) recipients)
  unfolding for_each
  recipients-Total [] s = (s, refl)
  recipients-Total ((script, amount) ∷ rest) s = recipients-Total rest _

  -- Going on with a step that cannot fail.
  pub then-Total :
      (v : Option CreateTxError) (m k : Step P I)
      → ((s : I.Builder) → Follows v (m s))
      → Total k
      → (s : I.Builder) → Follows v ((m >> k) s)
  then-Total none m k hm hk s = rw (hm s).1 (hk (hm s).0)
  then-Total (some e) m k hm hk s = rw (hm s).1 ((hm s).0, refl)
