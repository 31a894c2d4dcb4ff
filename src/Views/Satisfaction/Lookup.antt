-- ===== src/Views/Satisfaction/Lookup.antt =====
-- What a satisfaction shows is what the library says, as long as its numbers fit.
use native.Mathlib.Decide.{ℕ_discrete}
use native.Mathlib.Nat.{mod-eq_of_lt}
use mathlib.Core.Option
use bdk_ffi.Prelude.{ℕ, ◌<◌, ◌^◌, Bool, List, [], ◌∷◌, map, cast, Option, ◌≡◌, refl, All, String}
use bdk_ffi.Prelude.HashMap.{lookup, DistinctKeys, KeysFixed, lookup-collected}
use bdk_ffi.Extern.{Primitives}
use bdk_ffi.Views.Satisfaction.{
  Condition, Satisfaction, BdkCondition, BdkSatisfaction, vec_discrete, from_condition,
  from_satisfaction,
}

-- Numbers of so many bits.
abbrev pub Fits : ℕ → List ℕ → Type 0
Fits bits ns = All (λ n. n < 2 ^ bits) ns

cast_of_Fits : (bits : ℕ) (ns : List ℕ) → Fits bits ns → map (cast bits) ns ≡ ns
cast_of_Fits bits [] h = refl
cast_of_Fits bits (n ∷ ns) (lt, h) = rw (mod-eq_of_lt lt, cast_of_Fits bits ns h)

module _ {V : Type 0} where
  abbrev pub IndicesFit : List (ℕ × V) → Type 0
  IndicesFit entries = All (λ (e : ℕ × V). e.0 < 2 ^ 32) entries

  abbrev pub PathsFit : List (List ℕ × V) → Type 0
  PathsFit entries = All (λ (e : List ℕ × V). Fits 32 e.0) entries

  indices-KeysFixed :
      {W : Type 0} (g : V → W) (entries : List (ℕ × V))
      → IndicesFit entries
      → KeysFixed ℕ_discrete (cast 32) g entries
  indices-KeysFixed g [] h = tt
  indices-KeysFixed g ((n, v) ∷ entries) (lt, h) = (mod-eq_of_lt lt, indices-KeysFixed g entries h)

  paths-KeysFixed :
      {W : Type 0} (g : V → W) (entries : List (List ℕ × V))
      → PathsFit entries
      → KeysFixed vec_discrete (map (cast 32)) g entries
  paths-KeysFixed g [] h = tt
  paths-KeysFixed g ((ns, v) ∷ entries) (fits, h) =
      (cast_of_Fits 32 ns fits, paths-KeysFixed g entries h)

module _ (P : Primitives) where
  from_satisfaction-partial :
      (n m : ℕ) (items : List ℕ) (sorted : Option Bool)
      (conditions : List (ℕ × List (BdkCondition P)))
      → n < 2 ^ 64
      → m < 2 ^ 64
      → Fits 64 items
      → IndicesFit conditions
      → DistinctKeys ℕ_discrete conditions
      → (shown : List (ℕ × List Condition)) × (from_satisfaction P
            (BdkSatisfaction.partial n m items sorted conditions)
          ≡ Satisfaction.partial n m items sorted shown)
        × ((i : ℕ)
            → lookup ℕ_discrete i shown
              ≡ Option.map (map (from_condition P)) (lookup ℕ_discrete i conditions))
  unfolding from_satisfaction
  from_satisfaction-partial n m items sorted conditions hn hm hi hc distinct = (
    _,
    rw (mod-eq_of_lt hn, mod-eq_of_lt hm, cast_of_Fits 64 items hi),
    λ i.
        lookup-collected ℕ_discrete (cast 32) (map (from_condition P)) i conditions
          (indices-KeysFixed (map (from_condition P)) conditions hc) distinct,
  )

  from_satisfaction-partial_complete :
      (n m : ℕ) (items : List ℕ) (sorted : Option Bool)
      (conditions : List (List ℕ × List (BdkCondition P)))
      → n < 2 ^ 64
      → m < 2 ^ 64
      → Fits 64 items
      → PathsFit conditions
      → DistinctKeys vec_discrete conditions
      → (shown : List (List ℕ × List Condition)) × (from_satisfaction P
            (BdkSatisfaction.partial_complete n m items sorted conditions)
          ≡ Satisfaction.partial_complete n m items sorted shown)
        × ((path : List ℕ)
            → lookup vec_discrete path shown
              ≡ Option.map (map (from_condition P)) (lookup vec_discrete path conditions))
  unfolding from_satisfaction
  from_satisfaction-partial_complete n m items sorted conditions hn hm hi hc distinct = (
    _,
    rw (mod-eq_of_lt hn, mod-eq_of_lt hm, cast_of_Fits 64 items hi),
    λ path.
        lookup-collected vec_discrete (map (cast 32)) (map (from_condition P)) path conditions
          (paths-KeysFixed (map (from_condition P)) conditions hc) distinct,
  )

  -- The numbers of a satisfaction fit into the widths that the bindings show them in, and its map has no key twice.
  abbrev pub InRange : BdkSatisfaction P → Type 0
  InRange (BdkSatisfaction.partial n m items sorted conditions) =
      (n < 2 ^ 64)
      × (m < 2 ^ 64)
      × Fits 64 items
      × IndicesFit conditions
      × DistinctKeys ℕ_discrete conditions
  InRange (BdkSatisfaction.partial_complete n m items sorted conditions) =
      (n < 2 ^ 64)
      × (m < 2 ^ 64)
      × Fits 64 items
      × PathsFit conditions
      × DistinctKeys vec_discrete conditions
  InRange _ = Unit

  -- The same variant is shown with the same numbers, and each key with what the library has there.
  abbrev pub Shows : BdkSatisfaction P → Satisfaction → Type 0
  Shows (BdkSatisfaction.partial n m items sorted conditions) s =
      (shown : List (ℕ × List Condition)) × (s ≡ Satisfaction.partial n m items sorted shown)
      × ((i : ℕ)
          → lookup ℕ_discrete i shown
            ≡ Option.map (map (from_condition P)) (lookup ℕ_discrete i conditions))
  Shows (BdkSatisfaction.partial_complete n m items sorted conditions) s =
      (shown : List (List ℕ × List Condition)) × (s
        ≡ Satisfaction.partial_complete n m items sorted shown)
      × ((path : List ℕ)
          → lookup vec_discrete path shown
            ≡ Option.map (map (from_condition P)) (lookup vec_discrete path conditions))
  Shows (BdkSatisfaction.complete condition) s =
      s ≡ Satisfaction.complete (from_condition P condition)
  Shows BdkSatisfaction.none s = (reason : String) × (s ≡ Satisfaction.none reason)

  -- A satisfaction whose numbers fit into the widths of the bindings is shown as the same variant with
  -- the same numbers, and its map, which is built anew with narrowed keys, has under each key the
  -- converted conditions that the library has there, and no other key.
  pub from_satisfaction-Shows :
      (s : BdkSatisfaction P) → InRange s → Shows s (from_satisfaction P s)
  unfolding from_satisfaction
  from_satisfaction-Shows (BdkSatisfaction.partial n m items sorted conditions)
        (hn, hm, hi, hc, distinct) =
      from_satisfaction-partial n m items sorted conditions hn hm hi hc distinct
  from_satisfaction-Shows (BdkSatisfaction.partial_complete n m items sorted conditions)
        (hn, hm, hi, hc, distinct) =
      from_satisfaction-partial_complete n m items sorted conditions hn hm hi hc distinct
  from_satisfaction-Shows (BdkSatisfaction.complete condition) h = refl
  from_satisfaction-Shows BdkSatisfaction.none h = (_, refl)
