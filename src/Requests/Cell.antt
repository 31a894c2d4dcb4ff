-- ===== src/Requests/Cell.antt =====
-- `Arc<Mutex<Option<A>>>`: a shared cell whose content can be taken out once. The cells of one type
-- are a list, and a handle is a position. `lock().unwrap().take()` is one atomic step.
use bdk_ffi.Prelude.{
  ℕ, zero, suc, ◌+◌, ◌<◌, List, [], ◌∷◌, ◌++◌, Option, none, some, ◌≡◌, refl, ap, length, arith,
}

module _ {A : Type 0} where
  -- The content of a cell, and the cells without it. There is no handle out of range.
  unfoldable pub take : ℕ → List (Option A) → Option A × List (Option A)
  take h [] = (none, [])
  take zero (c ∷ cells) = (c, none ∷ cells)
  take (suc h) (c ∷ cells) = let (a, rest) = take h cells in (a, c ∷ rest)

  -- `Arc::new(Mutex::new(Some(a)))`: the handle of the new cell, and the cells with it.
  unfoldable pub alloc : A → List (Option A) → ℕ × List (Option A)
  alloc a cells = (length cells, cells ++ (some a ∷ []))

  -- The cell exists and is empty.
  abbrev pub Consumed : ℕ → List (Option A) → Type 0
  Consumed h [] = ⊥
  Consumed zero (none ∷ cells) = Unit {0}
  Consumed zero (some a ∷ cells) = ⊥
  Consumed (suc h) (c ∷ cells) = Consumed h cells

  -- How many cells are full.
  pub full : List (Option A) → ℕ
  full [] = 0
  full (none ∷ cells) = full cells
  full (some a ∷ cells) = suc (full cells)

  pub take-Consumed :
      (h : ℕ) (cells : List (Option A)) → Consumed h cells → take h cells ≡ (none, cells)
  unfolding take
  take-Consumed h [] c = elim c [ ]
  take-Consumed zero (none ∷ cells) c = refl
  take-Consumed zero (some a ∷ cells) c = elim c [ ]
  take-Consumed (suc h) (x ∷ cells) c = rw (take-Consumed h cells c)

  -- An empty cell stays empty, whatever cell is taken and however many are added.
  pub Consumed-take_other :
      (h k : ℕ) (cells : List (Option A)) → Consumed h cells → Consumed h (take k cells).1
  unfolding take
  Consumed-take_other h k [] c = c
  Consumed-take_other zero zero (none ∷ cells) c = tt
  Consumed-take_other zero zero (some a ∷ cells) c = tt
  Consumed-take_other zero (suc k) (none ∷ cells) c = tt
  Consumed-take_other zero (suc k) (some a ∷ cells) c = c
  Consumed-take_other (suc h) zero (x ∷ cells) c = c
  Consumed-take_other (suc h) (suc k) (x ∷ cells) c = Consumed-take_other h k cells c

  pub Consumed-alloc :
      (h : ℕ) (a : A) (cells : List (Option A)) → Consumed h cells → Consumed h (alloc a cells).1
  unfolding alloc
  Consumed-alloc h a [] c = elim c [ ]
  Consumed-alloc zero a (none ∷ cells) c = tt
  Consumed-alloc zero a (some b ∷ cells) c = c
  Consumed-alloc (suc h) a (x ∷ cells) c = Consumed-alloc h a cells c

  pub full-alloc : (a : A) (cells : List (Option A)) → full (alloc a cells).1 ≡ suc (full cells)
  unfolding full alloc
  full-alloc a [] = refl
  full-alloc a (none ∷ cells) = full-alloc a cells
  full-alloc a (some b ∷ cells) = ap suc (full-alloc a cells)

  -- What a successful take costs.
  abbrev pub taken : Option A → ℕ
  taken none = 0
  taken (some a) = 1

  pub full-take :
      (h : ℕ) (cells : List (Option A))
      → full (take h cells).1 + taken (take h cells).0 ≡ full cells
  unfolding full take
  full-take h [] = refl
  full-take zero (none ∷ cells) = omega arith
  full-take zero (some a ∷ cells) = omega arith
  full-take (suc h) (none ∷ cells) = full-take h cells
  full-take (suc h) (some a ∷ cells) = omega (arith, full-take h cells)

  -- After a take, whatever it gave, the cell is empty.
  pub Consumed-take_at :
      (h : ℕ) (cells : List (Option A)) → h < length cells → Consumed h (take h cells).1
  unfolding take
  Consumed-take_at h [] lt = elim lt [ ]
  Consumed-take_at zero (c ∷ cells) lt = tt
  Consumed-take_at (suc h) (c ∷ cells) lt = Consumed-take_at h cells (omega arith)

  -- Every cell that is empty in the one list is empty in the other.
  abbrev pub StaysConsumed : List (Option A) → List (Option A) → Type 0
  StaysConsumed cells cells' = (h : ℕ) → Consumed h cells → Consumed h cells'

  pub take-StaysConsumed : (k : ℕ) (cells : List (Option A)) → StaysConsumed cells (take k cells).1
  take-StaysConsumed k cells h = Consumed-take_other h k cells

  pub alloc-StaysConsumed :
      (a : A) (cells : List (Option A)) → StaysConsumed cells (alloc a cells).1
  alloc-StaysConsumed a cells h = Consumed-alloc h a cells
