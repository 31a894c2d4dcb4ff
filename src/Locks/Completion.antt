-- ===== src/Locks/Completion.antt =====
-- Threads that call the methods of the bindings can always be brought to their ends.
use bdk_ffi.Prelude.{
  ℕ, zero, suc, ◌+◌, ◌≤◌, true, List, [], ◌∷◌, some, length, Bool-cases, inl, inr, ◌≡◌, refl, sym,
  ap, ◌∙◌, arith,
}
use mathlib.Core.Option.{some-injective}
use bdk_ffi.Locks.Methods.{acquire, release, Call}
use bdk_ffi.Locks.Threads.{
  Thread, taken, without, get, set, advance, step_at, run, get_or_else, start, finished,
}
use bdk_ffi.Locks.Progress.{
  AllOrdered, progress, run-Ordered, start-Ordered, step-Ordered, step_at-eq-some,
}

-- The moves that are left.
abbrev pub work : List Thread → ℕ
work [] = 0
work (t ∷ ts) = length t.1 + work ts

advance-length :
    (ts : List Thread) (t t' : Thread) → advance ts t ≡ some t' → length t.1 ≡ suc (length t'.1)
advance-length ts (held, []) t' e = ground arith
advance-length ts (held, release l ∷ rest) t' e = rw (← some-injective (without l held, rest) t' e)
advance-length ts (held, acquire l ∷ rest) t' e = elim (Bool-cases (taken l ts)) [
  | inl busy ↦ ground arith
  | inr free ↦
      let moves : advance ts (held, acquire l ∷ rest) ≡ some (l ∷ held, rest) = rw free in
      rw (← some-injective (l ∷ held, rest) t' (sym moves ∙ e))
]

work-set :
    (i : ℕ) (t t' : Thread) (ts : List Thread)
    → get i ts ≡ some t
    → length t.1 ≡ suc (length t'.1)
    → work ts ≡ suc (work (set i t' ts))
work-set i t t' [] at e = ground arith
work-set zero t t' (u ∷ ts) at e =
    let same : u ≡ t = some-injective u t at in
    let lengths = ap (λ (v : Thread). length v.1) same in omega arith
work-set (suc i) t t' (u ∷ ts) at e = omega (arith, work-set i t t' ts at e)

work-step_at : (i : ℕ) (ts ts' : List Thread) → step_at i ts ≡ some ts' → work ts ≡ suc (work ts')
work-step_at i ts ts' e =
    let (t, t', at, moves, new) = step_at-eq-some i ts ts' e in
    work-set i t t' ts at (advance-length ts t t' moves) ∙ ap (λ us. suc (work us)) new

-- Threads that come to their ends within `n` moves.
abbrev pub EndsWithin : ℕ → List Thread → Type 0
EndsWithin n ts = (more : List ℕ) × (length more ≤ n) × (finished (run more ts) ≡ true)

move-EndsWithin :
    (n i : ℕ) (ts ts' : List Thread)
    → step_at i ts ≡ some ts'
    → EndsWithin n ts'
    → EndsWithin (suc n) ts
unfolding run
move-EndsWithin n i ts ts' moves (more, short, done) =
    (i ∷ more, omega arith, ap (λ o. finished (run more (get_or_else o ts))) moves ∙ done)

completes : (n : ℕ) (ts : List Thread) → AllOrdered ts → work ts ≡ n → EndsWithin n ts
unfolding run
completes zero ts ordered e = elim (Bool-cases (finished ts)) [
  | inl done ↦ ([], omega arith, done)
  | inr busy ↦
      let (i, ts', moves) = progress ts ordered busy in
      let left = work-step_at i ts ts' moves in ground arith
]
completes (suc n) ts ordered e = elim (Bool-cases (finished ts)) [
  | inl done ↦ ([], omega arith, done)
  | inr busy ↦
      let (i, ts', moves) = progress ts ordered busy in
      let left = work-step_at i ts ts' moves in
      move-EndsWithin n i ts ts' moves
        (completes n ts' (step-Ordered i ts ts' ordered moves) (omega arith))
]

-- Threads that call the methods of the bindings on shared objects never come to a deadlock: however
-- many there are, whatever calls each makes in turn, and in whatever order they have moved so far,
-- there is a way to go on in which all of them come to their ends, within as many moves as are left
-- to them. A method that waits for a lock is one that cannot move, and a thread cannot take a lock
-- twice.
pub run-EndsWithin :
    (calls : List (List Call)) (schedule : List ℕ)
    → EndsWithin (work (run schedule (start calls))) (run schedule (start calls))
run-EndsWithin calls schedule =
    completes (work (run schedule (start calls))) (run schedule (start calls))
      (run-Ordered schedule (start calls) (start-Ordered calls)) refl
