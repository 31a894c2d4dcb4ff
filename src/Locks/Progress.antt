-- ===== src/Locks/Progress.antt =====
-- Threads that call the methods of the bindings never wait for each other in a circle.
use mathlib.Core.Option.{some-injective}
use bdk_ffi.Prelude.{
  ℕ, zero, suc, ◌+◌, ◌<◌, ◌≤◌, true, false, List, [], ◌∷◌, none, some, Bool-cases, Option-cases,
  ◌⊎◌, inl, inr, ◌≡◌, refl, sym, ap, ◌∙◌, arith,
}
use bdk_ffi.Locks.Methods.{Lock, wallet, Move, acquire, release, Program, Call, program}
use bdk_ffi.Locks.Threads.{
  Thread, among, without, taken, get, set, advance, step_at, run, get_or_else, start, finished,
}
use bdk_ffi.Locks.Order.{rank, Ordered, among-Below, program-Ordered}

-- Every thread takes the locks that it still needs in order.
abbrev pub AllOrdered : List Thread → Type 0
AllOrdered ts = (i : ℕ) (t : Thread) → get i ts ≡ some t → Ordered t.0 t.1

-- A thread can move.
abbrev pub CanMove : List Thread → Type 0
CanMove ts = (i : ℕ) × (ts' : List Thread) × (step_at i ts ≡ some ts')

rank_le : (l : Lock) → rank l ≤ 2
rank_le (wallet _) = omega arith
rank_le _ = omega arith

-- A lock that is taken is held by one of the threads.
holder :
    (l : Lock) (ts : List Thread)
    → taken l ts ≡ true
    → (i : ℕ) × (t : Thread) × (get i ts ≡ some t) × (among l t.0 ≡ true)
holder l [] e = ground arith
holder l (t ∷ ts) e = elim (Bool-cases (among l t.0)) [
  | inl h ↦ (zero, t, refl, h)
  | inr h ↦ let (i, t', at, holds) = holder l ts (ground arith) in (suc i, t', at, holds)
]

-- The thread at `i` moves if it can.
steps :
    (i : ℕ) (ts : List Thread) (t t' : Thread)
    → get i ts ≡ some t
    → advance ts t ≡ some t'
    → step_at i ts ≡ some (set i t' ts)
steps i ts t t' at moves = rw (at, step_at) (rw moves)

-- A thread that holds a lock is not at its end, and it moves or waits for a lock of a higher rank.
waits :
    (ts : List Thread) (i : ℕ) (t : Thread) (l : Lock)
    → get i ts ≡ some t
    → Ordered t.0 t.1
    → among l t.0 ≡ true
    → CanMove ts ⊎ ((k : Lock) × (rank l < rank k) × (taken k ts ≡ true))
waits ts i (held, []) l at ordered holds =
    let empty : among l held ≡ false = ap (among l) ordered in ground arith
waits ts i (held, release k ∷ rest) l at ordered holds = inl (
  i,
  set i (without k held, rest) ts,
  steps i ts (held, release k ∷ rest) (without k held, rest) at refl,
)
waits ts i (held, acquire k ∷ rest) l at (below, ordered) holds = elim (Bool-cases (taken k ts)) [
  | inl busy ↦ inr (k, among-Below l k held holds below, busy)
  | inr free ↦ inl (
    i,
    set i (k ∷ held, rest) ts,
    steps i ts (held, acquire k ∷ rest) (k ∷ held, rest) at (rw free),
  )
]

-- From a lock that is taken, a chain of waiting threads climbs the ranks and ends at one that moves.
climb :
    (n : ℕ) (ts : List Thread) (l : Lock)
    → AllOrdered ts
    → taken l ts ≡ true
    → 2 ≤ rank l + n
    → CanMove ts
climb zero ts l ordered busy high =
    let (i, t, at, holds) = holder l ts busy in
    elim (waits ts i t l at (ordered i t at) holds) [
      | inl moves ↦ moves
      | inr (k, above, _) ↦ let top = rank_le k in ground arith
    ]
climb (suc n) ts l ordered busy high =
    let (i, t, at, holds) = holder l ts busy in
    elim (waits ts i t l at (ordered i t at) holds) [
      | inl moves ↦ moves
      | inr (k, above, busy') ↦ climb n ts k ordered busy' (omega arith)
    ]

-- Of threads that are not all at their ends, one moves.
unfinished :
    (ts : List Thread)
    → finished ts ≡ false
    → (i : ℕ) × (held : List Lock) × (m : Move) × (rest : Program) × (get i ts
        ≡ some (held, m ∷ rest))
unfinished [] e = ground arith
unfinished ((held, m ∷ rest) ∷ ts) e = (zero, held, m, rest, refl)
unfinished ((held, []) ∷ ts) e =
    let (i, held', m, rest, at) = unfinished ts e in (suc i, held', m, rest, at)

pub progress : (ts : List Thread) → AllOrdered ts → finished ts ≡ false → CanMove ts
progress ts ordered e = go (unfinished ts e)
  where
    go :
        ((i : ℕ) × (held : List Lock) × (m : Move) × (rest : Program) × (get i ts
            ≡ some (held, m ∷ rest)))
        → CanMove ts
    go (i, held, release k, rest, at) = (
      i,
      set i (without k held, rest) ts,
      steps i ts (held, release k ∷ rest) (without k held, rest) at refl,
    )
    go (i, held, acquire k, rest, at) = elim (Bool-cases (taken k ts)) [
      | inl busy ↦ climb 2 ts k ordered busy (omega arith)
      | inr free ↦ (
        i,
        set i (k ∷ held, rest) ts,
        steps i ts (held, acquire k ∷ rest) (k ∷ held, rest) at (rw free),
      )
    ]

get-set :
    (i j : ℕ) (t t' u : Thread) (ts : List Thread)
    → get i ts ≡ some t
    → get j (set i t' ts) ≡ some u
    → (u ≡ t') ⊎ (get j ts ≡ some u)
get-set i j t t' u [] at e = ground arith
get-set zero zero t t' u (v ∷ ts) at e = inl (some-injective u t' (sym e))
get-set zero (suc j) t t' u (v ∷ ts) at e = inr e
get-set (suc i) zero t t' u (v ∷ ts) at e = inr e
get-set (suc i) (suc j) t t' u (v ∷ ts) at e = get-set i j t t' u ts at e

advance-Ordered :
    (ts : List Thread) (t t' : Thread)
    → Ordered t.0 t.1
    → advance ts t ≡ some t'
    → Ordered t'.0 t'.1
advance-Ordered ts (held, []) t' ordered e = ground arith
advance-Ordered ts (held, release l ∷ rest) t' ordered e =
    rw (← some-injective (without l held, rest) t' e) ordered
advance-Ordered ts (held, acquire l ∷ rest) t' (below, ordered) e = elim (Bool-cases (taken l ts)) [
  | inl busy ↦ ground arith
  | inr free ↦
      let moves : advance ts (held, acquire l ∷ rest) ≡ some (l ∷ held, rest) = rw free in
      rw (← some-injective (l ∷ held, rest) t' (sym moves ∙ e)) ordered
]

-- What a move that happened was.
pub step_at-eq-some :
    (i : ℕ) (ts ts' : List Thread)
    → step_at i ts ≡ some ts'
    → (t t' : Thread) × (get i ts ≡ some t) × (advance ts t ≡ some t') × (set i t' ts ≡ ts')
step_at-eq-some i ts ts' e = elim (Option-cases (get i ts)) [
  | inl missing ↦ let still : step_at i ts ≡ none = rw (missing, step_at) in ground arith
  | inr (t, at) ↦ elim (Option-cases (advance ts t)) [
    | inl stuck ↦ let still : step_at i ts ≡ none = rw (at, step_at) (rw stuck) in ground arith
    | inr (t', moves) ↦
        (t, t', at, moves, some-injective (set i t' ts) ts' (sym (steps i ts t t' at moves) ∙ e))
  ]
]

pub step-Ordered :
    (i : ℕ) (ts ts' : List Thread) → AllOrdered ts → step_at i ts ≡ some ts' → AllOrdered ts'
step-Ordered i ts ts' ordered e j u at' =
    let (t, t', at, moves, new) = step_at-eq-some i ts ts' e in
    elim (get-set i j t t' u ts at (ap (get j) new ∙ at')) [
      | inl mover ↦ rw mover (advance-Ordered ts t t' (ordered i t at) moves)
      | inr other ↦ ordered j u other
    ]

get_or_else-Ordered :
    (i : ℕ) (ts : List Thread) → AllOrdered ts → AllOrdered (get_or_else (step_at i ts) ts)
get_or_else-Ordered i ts ordered = elim (Option-cases (step_at i ts)) [
  | inl stuck ↦ rw (stuck, get_or_else) ordered
  | inr (ts', moves) ↦ rw (moves, get_or_else) (step-Ordered i ts ts' ordered moves)
]

pub run-Ordered :
    (schedule : List ℕ) (ts : List Thread) → AllOrdered ts → AllOrdered (run schedule ts)
unfolding run
run-Ordered [] ts ordered = ordered
run-Ordered (i ∷ schedule) ts ordered =
    run-Ordered schedule (get_or_else (step_at i ts) ts) (get_or_else-Ordered i ts ordered)

pub start-Ordered : (calls : List (List Call)) → AllOrdered (start calls)
unfolding start
start-Ordered [] i t at = ground arith
start-Ordered (cs ∷ others) zero t at =
    rw (← some-injective ([], program cs) t at) (program-Ordered cs)
start-Ordered (cs ∷ others) (suc i) t at = start-Ordered others i t at
