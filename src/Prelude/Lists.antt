-- ===== src/Prelude/Lists.antt =====
-- Lists measured by native numbers, and a predicate that holds of every element.
use Prim.Native.Nat.{ℕ, zero, suc, ◌≤◌}
use mathlib.Core.Bool.{Bool, true, false}
use mathlib.Core.List.{List, [], ◌∷◌, map, Permᴰ}
use mathlib.Core.Path.{◌≡◌, refl, ap, subst}
use native.Mathlib.Omega.{arith}

module _ {ℓ} {A : Type ℓ} where
  abbrev pub length : List A → ℕ
  length [] = 0
  length (x ∷ xs) = suc (length xs)

  abbrev pub take : ℕ → List A → List A
  take zero xs = []
  take (suc n) [] = []
  take (suc n) (x ∷ xs) = x ∷ take n xs

  abbrev pub replicate : ℕ → A → List A
  replicate zero a = []
  replicate (suc n) a = a ∷ replicate n a

  pub length-take : (n : ℕ) (xs : List A) → n ≤ length xs → length (take n xs) ≡ n
  length-take zero xs le = refl
  length-take (suc n) [] le = omega (arith, le)
  length-take (suc n) (x ∷ xs) le = ap suc (length-take n xs (omega (arith, le)))

  pub length-replicate : (n : ℕ) (a : A) → length (replicate n a) ≡ n
  length-replicate zero a = refl
  length-replicate (suc n) a = ap suc (length-replicate n a)

  -- `Vec::is_empty`
  abbrev pub is_empty : List A → Bool
  is_empty [] = true
  is_empty (x ∷ xs) = false

-- A predicate holds of every element.
abbrev pub All {ℓ κ} : {A : Type ℓ} → (A → Type κ) → List A → Type κ
All P [] = Unit
All P (x ∷ xs) = P x × All P xs

-- Any two elements stand in a relation, the earlier one first.
abbrev pub Ordered {ℓ κ} : {A : Type ℓ} → (A → A → Type κ) → List A → Type κ
Ordered R [] = Unit
Ordered R (x ∷ xs) = All (R x) xs × Ordered R xs

module _ {A B : Type 0} (f : A → B) where
  pub All-map :
      (P : A → Type 0) (Q : B → Type 0) (xs : List A)
      → ((a : A) → P a → Q (f a))
      → All P xs
      → All Q (map f xs)
  All-map P Q [] h all = tt
  All-map P Q (x ∷ xs) h (p, all) = (h x p, All-map P Q xs h all)

  pub Ordered-map :
      (R : A → A → Type 0) (S : B → B → Type 0) (xs : List A)
      → ((a b : A) → R a b → S (f a) (f b))
      → Ordered R xs
      → Ordered S (map f xs)
  Ordered-map R S [] h ordered = tt
  Ordered-map R S (x ∷ xs) h (all, ordered) =
      (All-map (R x) (S (f x)) xs (h x) all, Ordered-map R S xs h ordered)

-- What holds of every element holds of them in any other order.
pub All-Permᴰ : {A : Type 0} (P : A → Type 0) (xs ys : List A) → Permᴰ xs ys → All P xs → All P ys
All-Permᴰ P _ _ Permᴰ.nil all = tt
All-Permᴰ P (x ∷ xs) (y ∷ ys) (Permᴰ.cons e perm) (p, all) =
    (subst P e p, All-Permᴰ P xs ys perm all)
All-Permᴰ P (x ∷ y ∷ xs) _ (Permᴰ.swap e e') (p, (q, all)) = (subst P e' q, (subst P e p, all))
All-Permᴰ P xs ys (Permᴰ.trans {l₂ = zs} perm perm') all =
    All-Permᴰ P zs ys perm' (All-Permᴰ P xs zs perm all)
