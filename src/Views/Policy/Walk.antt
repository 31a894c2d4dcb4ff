-- ===== src/Views/Policy/Walk.antt =====
-- Foreign code that walks a policy, one level at a time.
use Prim.Native.Nat.{max}
use bdk_ffi.Prelude.{
  ℕ, zero, suc, ◌≤◌, String, List, [], ◌∷◌, ◌++◌, Option, none, some, ◌≡◌, refl, arith,
}
use bdk_ffi.Extern.{Primitives}
use bdk_ffi.Views.Policy.{
  BdkPolicy, BdkSatisfiableItem, BdkPolicies, policy, nil, cons, policies, SatisfiableItem,
  from_item, id, item,
}

module _ (P : Primitives) where
  -- The identifiers in the library's tree, a policy before its items.
  unfoldable mutual
    pub ids : BdkPolicy P → List String
    ids (policy own root met given) = own ∷ ids_item root

    pub ids_item : BdkSatisfiableItem P → List String
    ids_item (BdkSatisfiableItem.thresh items threshold) = ids_all items
    ids_item _ = []

    pub ids_all : BdkPolicies P → List String
    ids_all nil = []
    ids_all (cons p ps) = ids p ++ ids_all ps

  -- How deep the library's tree is.
  unfoldable mutual
    pub depth : BdkPolicy P → ℕ
    depth (policy own root met given) = suc (depth_item root)

    pub depth_item : BdkSatisfiableItem P → ℕ
    depth_item (BdkSatisfiableItem.thresh items threshold) = depth_all items
    depth_item _ = 0

    pub depth_all : BdkPolicies P → ℕ
    depth_all nil = 0
    depth_all (cons p ps) = max (depth p) (depth_all ps)

  -- The identifiers that a visit finds in turn.
  abbrev joined : Option (List String) → Option (List String) → Option (List String)
  joined (some xs) (some ys) = some (xs ++ ys)
  joined _ _ = none

  abbrev visit_all :
      (BdkPolicy P → Option (List String)) → List (BdkPolicy P) → Option (List String)
  visit_all visit [] = some []
  visit_all visit (p ∷ ps) = joined (visit p) (visit_all visit ps)

  abbrev visit_item :
      (BdkPolicy P → Option (List String)) → SatisfiableItem P → Option (List String)
  visit_item visit (SatisfiableItem.thresh items threshold) = visit_all visit items
  visit_item visit _ = some []

  -- A walk with the methods `id` and `item` of the bindings. The number bounds how many levels it goes down, and `none`
  -- means that this was not enough.
  pub walk : ℕ → BdkPolicy P → Option (List String)
  unfolding id item
  walk zero p = none
  walk (suc levels) p = joined (some (id P p ∷ [])) (visit_item (walk levels) (item P p))

  mutual
    unfolding ids depth walk item from_item policies

    walk-ids : (n : ℕ) (p : BdkPolicy P) → depth p ≤ n → walk n p ≡ some (ids p)
    walk-ids zero (policy own root met given) h = elim h [ ]
    walk-ids (suc n) (policy own root met given) h = rw (visit_item-ids n root (omega arith))

    visit_item-ids :
        (n : ℕ) (it : BdkSatisfiableItem P)
        → depth_item it ≤ n
        → visit_item (walk n) (from_item P it) ≡ some (ids_item it)
    visit_item-ids n (BdkSatisfiableItem.thresh items threshold) h = visit_all-ids n items h
    visit_item-ids n (BdkSatisfiableItem.ecdsa_signature _) h = refl
    visit_item-ids n _ h = refl

    visit_all-ids :
        (n : ℕ) (ps : BdkPolicies P)
        → depth_all ps ≤ n
        → visit_all (walk n) (policies P ps) ≡ some (ids_all ps)
    visit_all-ids n nil h = refl
    visit_all-ids n (cons p ps) h =
        rw (walk-ids n p (omega arith), visit_all-ids n ps (omega arith))

  -- Foreign code that walks a spending policy by `id` and `item`, one level at a time, comes to an end:
  -- as many levels as the library's tree is deep are enough, and it then has seen the identifiers of all
  -- policies in the tree, a policy before its items and the items in their order.
  pub walk-eq-ids : (n : ℕ) (p : BdkPolicy P) → depth p ≤ n → walk n p ≡ some (ids p)
  walk-eq-ids n p h = walk-ids n p h
