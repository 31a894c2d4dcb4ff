-- ===== src/Prelude/HashSet.antt =====
-- `std::collections::HashSet` as a list without repetition.
use mathlib.Core.Path.{◌≡◌}
use mathlib.Core.Bool.{Bool, true, false, ◌||◌}
use mathlib.Core.List.{List, [], ◌∷◌, ◌++◌, foldl, foldl-append}
use native.Mathlib.Omega.{arith}
use bdk_ffi.Prelude.Tests.{if◌then◌else◌}

module _ {A : Type 0} (discrete : Discrete A) where
  abbrev pub eq : A → A → Bool
  eq x y = elim (discrete x y) [ yes p ↦ true | no p ↦ false ]

  unfoldable pub contains : A → List A → Bool
  contains x [] = false
  contains x (y ∷ ys) = eq x y || contains x ys

  -- `HashSet::insert`: an element that is already there is not added again.
  unfoldable pub insert : A → List A → List A
  insert x set = if contains x set then set else x ∷ set

  -- `HashSet::extend`
  abbrev pub extend : List A → List A → List A
  extend set xs = foldl (λ set x. insert x set) set xs

  -- `iter.collect()`
  unfoldable pub from_iter : List A → List A
  from_iter xs = extend [] xs

  -- No element stands twice.
  abbrev pub Distinct : List A → Type 0
  Distinct [] = Unit
  Distinct (x ∷ xs) = (contains x xs ≡ false) × Distinct xs

  pub contains-insert :
      (x y : A) (set : List A) → contains x (insert y set) ≡ (eq x y || contains x set)
  unfolding insert contains
  contains-insert x y set = ground arith

  pub insert-Distinct : (x : A) (set : List A) → Distinct set → Distinct (insert x set)
  unfolding insert
  insert-Distinct x set d = ground arith

  contains-extend :
      (x : A) (xs set : List A) → contains x (extend set xs) ≡ (contains x set || contains x xs)
  unfolding contains
  contains-extend x [] set = ground arith
  contains-extend x (y ∷ ys) set =
      ground (arith, contains-insert x y set, contains-extend x ys (insert y set))

  pub contains-from_iter : (x : A) (xs : List A) → contains x (from_iter xs) ≡ contains x xs
  unfolding from_iter contains
  contains-from_iter x xs = contains-extend x xs []

  extend-Distinct : (xs set : List A) → Distinct set → Distinct (extend set xs)
  extend-Distinct [] set d = d
  extend-Distinct (x ∷ xs) set d = extend-Distinct xs (insert x set) (insert-Distinct x set d)

  pub from_iter-Distinct : (xs : List A) → Distinct (from_iter xs)
  unfolding from_iter
  from_iter-Distinct xs = extend-Distinct xs [] tt

  -- An element that comes last is inserted last.
  pub from_iter-append_one :
      (xs : List A) (x : A) → from_iter (xs ++ x ∷ []) ≡ insert x (from_iter xs)
  unfolding from_iter
  from_iter-append_one xs x = foldl-append (λ set x. insert x set) [] xs (x ∷ [])
