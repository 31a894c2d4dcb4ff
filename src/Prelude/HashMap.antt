-- ===== src/Prelude/HashMap.antt =====
-- `std::collections::HashMap` as a list of entries.
use bdk_ffi.Prelude.HashSet.{eq}
use mathlib.Core.Path.{◌≡◌, refl, ◌∙◌}
use mathlib.Core.Bool.{Bool, true, false, ◌||◌}
use mathlib.Core.Option.{Option, none, some}
use mathlib.Core.Option
use mathlib.Core.Logic.{inl, inr}
use mathlib.Core.List.{List, [], ◌∷◌}
use native.Mathlib.Omega.{arith}
use bdk_ffi.Prelude.Tests.{if◌then◌else◌, Bool-cases}

eq_sound : {K : Type 0} (discrete : Discrete K) (k k' : K) → eq discrete k k' ≡ true → k ≡ k'
eq_sound discrete k k' e =
    elim (discrete k k') as (λ d. elim d [ yes _ ↦ true | no _ ↦ false ] ≡ true → k ≡ k') [
      | yes p ↦ λ _. p
      | no _ ↦ λ f. ground arith
    ]
      e

module _ {K V : Type 0} (discrete : Discrete K) where
  unfoldable pub lookup : K → List (K × V) → Option V
  lookup k [] = none
  lookup k ((k', v) ∷ entries) = if eq discrete k k' then some v else lookup k entries

  -- `HashMap::insert`: the newest entry of a key hides the older ones.
  unfoldable pub insert : K → V → List (K × V) → List (K × V)
  insert k v entries = (k, v) ∷ entries

  -- `iter.collect()` into entries that are there.
  unfoldable pub extend : List (K × V) → List (K × V) → List (K × V)
  unfolding insert
  extend entries [] = entries
  extend entries ((k, v) ∷ new) = extend (insert k v entries) new

  -- Whether a key has an entry.
  abbrev pub has_key : K → List (K × V) → Bool
  has_key k [] = false
  has_key k ((k', v) ∷ entries) = eq discrete k k' || has_key k entries

  -- No key stands twice, as in a map.
  abbrev pub DistinctKeys : List (K × V) → Type 0
  DistinctKeys [] = Unit
  DistinctKeys ((k, v) ∷ entries) = (has_key k entries ≡ false) × DistinctKeys entries

  lookup_absent :
      (k : K) (entries : List (K × V)) → has_key k entries ≡ false → lookup k entries ≡ none
  unfolding lookup
  lookup_absent k [] e = refl
  lookup_absent k ((k', v) ∷ entries) e = ground (arith, lookup_absent k entries)

  -- The newer of two values, where there is one.
  abbrev pub newer : Option V → Option V → Option V
  newer none old = old
  newer (some v) old = some v

  lookup-extend :
      (k : K) (new entries : List (K × V))
      → DistinctKeys new
      → lookup k (extend entries new) ≡ newer (lookup k new) (lookup k entries)
  unfolding lookup extend insert
  lookup-extend k [] entries d = refl
  lookup-extend k ((k', v) ∷ new) entries (fresh, d) =
      lookup-extend k new (insert k' v entries) d ∙ (elim (Bool-cases (eq discrete k k')) [
        | inl same ↦
            let absent : has_key k new ≡ false = rw (eq_sound discrete k k' same) fresh in
            rw (same, lookup_absent k new absent)
        | inr other ↦ rw other
      ])

module _ {K V W : Type 0} (discrete : Discrete K) (f : K → K) (g : V → W) where
  -- The entries with keys and values converted.
  abbrev pub converted : List (K × V) → List (K × W)
  converted [] = []
  converted ((k, v) ∷ entries) = (f k, g v) ∷ converted entries

  -- The conversion of the keys changes none of them.
  abbrev pub KeysFixed : List (K × V) → Type 0
  KeysFixed [] = Unit
  KeysFixed ((k, v) ∷ entries) = (f k ≡ k) × KeysFixed entries

  has_key-converted :
      (k : K) (entries : List (K × V))
      → KeysFixed entries
      → has_key discrete k (converted entries) ≡ has_key discrete k entries
  has_key-converted k [] h = refl
  has_key-converted k ((k', v) ∷ entries) (e, h) = rw (e, has_key-converted k entries h)

  converted-DistinctKeys :
      (entries : List (K × V))
      → KeysFixed entries
      → DistinctKeys discrete entries
      → DistinctKeys discrete (converted entries)
  converted-DistinctKeys [] h d = tt
  converted-DistinctKeys ((k, v) ∷ entries) (e, h) (fresh, d) =
      (rw (e, has_key-converted k entries h) fresh, converted-DistinctKeys entries h d)

  lookup-converted :
      (k : K) (entries : List (K × V))
      → KeysFixed entries
      → lookup discrete k (converted entries) ≡ Option.map g (lookup discrete k entries)
  unfolding lookup
  lookup-converted k [] h = refl
  lookup-converted k ((k', v) ∷ entries) (e, h) = elim (Bool-cases (eq discrete k k')) [
    | inl same ↦ rw (e, same)
    | inr other ↦ rw (e, other) (lookup-converted k entries h)
  ]

  newer_none : (o : Option W) → newer discrete o none ≡ o
  newer_none none = refl
  newer_none (some w) = refl

  -- A map that is collected from converted entries has at each key the converted value.
  pub lookup-collected :
      (k : K) (entries : List (K × V))
      → KeysFixed entries
      → DistinctKeys discrete entries
      → lookup discrete k (extend discrete [] (converted entries))
        ≡ Option.map g (lookup discrete k entries)
  unfolding lookup
  lookup-collected k entries h d =
      lookup-extend discrete k (converted entries) [] (converted-DistinctKeys entries h d)
      ∙ newer_none (lookup discrete k (converted entries))
      ∙ lookup-converted k entries h
