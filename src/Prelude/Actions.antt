-- ===== src/Prelude/Actions.antt =====
-- Calls that change a state and may fail. The state that a failing call leaves behind is kept, as a
-- Rust method on `&mut self` keeps it.
use mathlib.Core.Option.{Option, none, some}
use mathlib.Core.Bool.{Bool, true, false}
use mathlib.Core.List.{List, [], ◌∷◌, ◌++◌}
use mathlib.Core.Path.{◌≡◌, refl, sym, fun_ext}
use bdk_ffi.Prelude.Results.{Result, ok, err}

abbrev pub Action : Type 0 → Type 0 → Type 0 → Type 0
Action S E A = S → Result A E × S

module _ {S E A : Type 0} where
  -- What runs after a call: nothing, if the call failed.
  abbrev pub resume : {B : Type 0} → (A → Action S E B) → Result A E × S → Result B E × S
  resume f (ok a, s) = f a s
  resume f (err e, s) = (err e, s)

infixl 5 ◌>>=◌ ◌>>◌
abbrev pub ◌>>=◌ : {S E A B : Type 0} → Action S E A → (A → Action S E B) → Action S E B
◌>>=◌ m f s = resume f (m s)

abbrev pub ◌>>◌ : {S E B : Type 0} → Action S E (Unit {0}) → Action S E B → Action S E B
◌>>◌ m k s = resume (λ _. k) (m s)

-- `result?`
abbrev pub lift : {S E A : Type 0} → Result A E → Action S E A
lift r s = (r, s)

-- Running on after running on.
resume-resume :
    {S E A B C : Type 0} (f : A → Action S E B) (g : B → Action S E C) (r : Result A E × S)
    → resume g (resume f r) ≡ resume (λ a s. resume g (f a s)) r
resume-resume f g (ok a, s) = refl
resume-resume f g (err e, s) = refl

module _ {S E : Type 0} where
  -- A call that cannot fail.
  abbrev pub effect : (S → S) → Action S E (Unit {0})
  effect f s = (ok tt, f s)

  -- `if condition { call }`
  abbrev pub when : Bool → Action S E (Unit {0}) → Action S E (Unit {0})
  when true m s = m s
  when false m s = (ok tt, s)

  -- `if let Some(a) = option { call }`
  abbrev pub when_some :
      {A : Type 0} → Option A → (A → Action S E (Unit {0})) → Action S E (Unit {0})
  when_some none f s = (ok tt, s)
  when_some (some a) f s = f a s

  -- `for a in list { call }`
  unfoldable pub for_each :
      {A : Type 0} → (A → Action S E (Unit {0})) → List A → Action S E (Unit {0})
  for_each f [] s = (ok tt, s)
  for_each f (a ∷ rest) s = resume (λ _. for_each f rest) (f a s)

  pub for_each-append :
      {A : Type 0} (f : A → Action S E (Unit {0})) (xs ys : List A) (s : S)
      → for_each f (xs ++ ys) s ≡ resume (λ _. for_each f ys) (for_each f xs s)
  unfolding for_each
  for_each-append f [] ys s = refl
  for_each-append f (x ∷ xs) ys s =
      rw (fun_ext (for_each-append f xs ys)) (sym (resume-resume _ _ (f x s)))
