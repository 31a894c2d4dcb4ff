-- ===== src/Views/Satisfaction.antt =====
-- `Satisfaction` and `Condition` of bdk-ffi/src/types.rs, and their conversions. The library's maps are lists of entries
-- in the order in which they are iterated, and its sets of conditions are lists in an unspecified order.
pub mod Lookup
use native.Mathlib.Decide.{ℕ_discrete}
use mathlib.Core.Option
use mathlib.Core.List.{cons≢nil, head-eq_of_cons-eq, tail-eq_of_cons-eq}
use bdk_ffi.Prelude.{ℕ, Bool, String, List, [], ◌∷◌, map, cast, Option, ◌≡◌, refl, sym}
use bdk_ffi.Prelude.HashMap.{extend, converted}
use bdk_ffi.Extern.{Primitives}
use bdk_ffi.Types.LockTime.{LockTime, BdkLockTime, from_bdk}

pub record Condition : Type 0 where
  pub csv : Option ℕ
  pub timelock : Option LockTime

pub data Satisfaction : Type 0 where
  partial : ℕ → ℕ → List ℕ → Option Bool → List (ℕ × List Condition) → Satisfaction
  partial_complete : ℕ → ℕ → List ℕ → Option Bool → List (List ℕ × List Condition) → Satisfaction
  complete : Condition → Satisfaction
  none : String → Satisfaction

-- The keys of `HashMap<Vec<u32>, _>` are compared as vectors.
abbrev both : (x y : ℕ) (xs ys : List ℕ) → Dec (x ≡ y) → Dec (xs ≡ ys) → Dec (x ∷ xs ≡ y ∷ ys)
both x y xs ys (yes e) (yes es) = yes (λ i. e i ∷ es i)
both x y xs ys (yes e) (no ne) = no λ same. ne (tail-eq_of_cons-eq same)
both x y xs ys (no ne) _ = no λ same. ne (head-eq_of_cons-eq same)

unfoldable pub vec_discrete : Discrete (List ℕ)
unfolding ℕ_discrete
vec_discrete [] [] = yes refl
vec_discrete [] (y ∷ ys) = no λ same. cons≢nil (sym same)
vec_discrete (x ∷ xs) [] = no λ same. cons≢nil same
vec_discrete (x ∷ xs) (y ∷ ys) = both x y xs ys (ℕ_discrete x y) (vec_discrete xs ys)

module _ (P : Primitives) where
  -- `bdk_wallet::descriptor::policy::Condition`: a sequence number is its consensus encoding.
  pub record BdkCondition : Type 0 where
    pub csv : Option ℕ
    pub timelock : Option (BdkLockTime P)

  pub data BdkSatisfaction : Type 0 where
    partial : ℕ → ℕ → List ℕ → Option Bool → List (ℕ × List BdkCondition) → BdkSatisfaction
    partial_complete :
        ℕ → ℕ → List ℕ → Option Bool → List (List ℕ × List BdkCondition) → BdkSatisfaction
    complete : BdkCondition → BdkSatisfaction
    none : BdkSatisfaction

  unfoldable pub from_condition : BdkCondition → Condition
  unfolding from_bdk
  from_condition value = record {
    csv = value.csv;
    timelock = Option.map (from_bdk P) value.timelock;
  }

  unfoldable pub from_satisfaction : BdkSatisfaction → Satisfaction
  unfolding from_condition extend vec_discrete
  from_satisfaction (BdkSatisfaction.partial n m items sorted conditions) =
      Satisfaction.partial (cast 64 n) (cast 64 m) (map (cast 64) items) sorted
        (extend ℕ_discrete [] (converted ℕ_discrete (cast 32) (map from_condition) conditions))
  from_satisfaction (BdkSatisfaction.partial_complete n m items sorted conditions) =
      Satisfaction.partial_complete (cast 64 n) (cast 64 m) (map (cast 64) items) sorted (
        extend vec_discrete []
          (converted vec_discrete (map (cast 32)) (map from_condition) conditions))
  from_satisfaction (BdkSatisfaction.complete condition) =
      Satisfaction.complete (from_condition condition)
  from_satisfaction BdkSatisfaction.none =
      Satisfaction.none "Cannot satisfy or contribute to the policy item"
