-- ===== src/Tests/Views.antt =====
-- The theorems on satisfactions and policies at small ones.
use mathlib.Core.Option
use bdk_ffi.Prelude.{ℕ, String, List, [], ◌∷◌, map, none, some, ◌≡◌, refl, arith}
use bdk_ffi.Prelude.HashMap.{lookup}
use bdk_ffi.Types.LockTime.{BdkLockTime}
use bdk_ffi.Views.Satisfaction.{
  Condition, Satisfaction, BdkCondition, BdkSatisfaction, vec_discrete, from_condition,
  from_satisfaction,
}
use bdk_ffi.Views.Satisfaction.Lookup.{from_satisfaction-Shows}
use bdk_ffi.Views.Policy.{BdkPolicy, BdkPkOrF, BdkSatisfiableItem, policy, nil, cons}
use bdk_ffi.Views.Policy.Walk.{ids, depth, walk, walk-eq-ids}
use bdk_ffi.Tests.Primitives.{plain}

-- A relative and an absolute lock.
abbrev csv : BdkCondition plain
csv = record { csv = some 144; timelock = none }

abbrev after : BdkCondition plain
after = record { csv = none; timelock = some (BdkLockTime.blocks 800000) }

abbrev by_path : List (List ℕ × List (BdkCondition plain))
by_path = (0 ∷ 1 ∷ [], csv ∷ []) ∷ (0 ∷ 2 ∷ [], after ∷ []) ∷ []

from_satisfaction-Shows_example :
    (shown : List (List ℕ × List Condition)) × (from_satisfaction plain
        (BdkSatisfaction.partial_complete 3 2 (0 ∷ 1 ∷ []) none by_path)
      ≡ Satisfaction.partial_complete 3 2 (0 ∷ 1 ∷ []) none shown)
    × ((path : List ℕ)
        → lookup vec_discrete path shown
          ≡ Option.map (map (from_condition plain)) (lookup vec_discrete path by_path))
unfolding vec_discrete
from_satisfaction-Shows_example =
    from_satisfaction-Shows plain (BdkSatisfaction.partial_complete 3 2 (0 ∷ 1 ∷ []) none by_path) (
      omega arith,
      omega arith,
      (omega arith, (omega arith, tt)),
      ((omega arith, (omega arith, tt)), ((omega arith, (omega arith, tt)), tt)),
      (refl, (refl, tt)),
    )

abbrev key : String → BdkPolicy plain
key own =
    policy own (BdkSatisfiableItem.ecdsa_signature (BdkPkOrF.fingerprint own)) BdkSatisfaction.none
      BdkSatisfaction.none

-- One of two, where the second is all of two.
abbrev nested : BdkPolicy plain
nested =
    policy "or"
      (BdkSatisfiableItem.thresh
        (cons (key "a") (
          cons
            (policy "and" (BdkSatisfiableItem.thresh (cons (key "b") (cons (key "c") nil)) 2)
              BdkSatisfaction.none BdkSatisfaction.none)
            nil))
        1)
      BdkSatisfaction.none BdkSatisfaction.none

walk-eq-ids_example : walk plain 3 nested ≡ some ("or" ∷ "a" ∷ "and" ∷ "b" ∷ "c" ∷ [])
unfolding ids depth
walk-eq-ids_example = walk-eq-ids plain 3 nested (omega arith)
