-- ===== src/Locks/Threads.antt =====
-- Threads that take and release locks. A lock that any thread holds cannot be taken, by the same thread either.
use native.Mathlib.Decide.{ℕ_discrete}
use bdk_ffi.Prelude.{
  ℕ, zero, suc, Bool, true, false, ◌||◌, ◌&&◌, List, [], ◌∷◌, Option, none, some, is_empty,
  if◌then◌else◌,
}
use bdk_ffi.Prelude.HashSet.{eq}
use bdk_ffi.Locks.Methods.{
  Lock, wallet, psbt, connection, request, path, acquire, release, Program, Call, program,
}

unfoldable pub same : Lock → Lock → Bool
same (wallet a) (wallet b) = eq ℕ_discrete a b
same (psbt a) (psbt b) = eq ℕ_discrete a b
same (connection a) (connection b) = eq ℕ_discrete a b
same (request a) (request b) = eq ℕ_discrete a b
same (path a) (path b) = eq ℕ_discrete a b
same _ _ = false

-- The locks that a thread holds, and what it still has to do.
abbrev pub Thread : Type 0
Thread = List Lock × Program

abbrev pub among : Lock → List Lock → Bool
among l [] = false
among l (h ∷ held) = same l h || among l held

abbrev pub without : Lock → List Lock → List Lock
without l [] = []
without l (h ∷ held) = let rest = without l held in if same l h then rest else h ∷ rest

-- Whether any thread holds the lock.
abbrev pub taken : Lock → List Thread → Bool
taken l [] = false
taken l (t ∷ ts) = among l t.0 || taken l ts

abbrev pub get : ℕ → List Thread → Option Thread
get i [] = none
get zero (t ∷ ts) = some t
get (suc i) (t ∷ ts) = get i ts

abbrev pub set : ℕ → Thread → List Thread → List Thread
set i t [] = []
set zero t (_ ∷ ts) = t ∷ ts
set (suc i) t (t' ∷ ts) = t' ∷ set i t ts

-- The next move of a thread: none at its end, and none while it has to wait.
abbrev pub advance : List Thread → Thread → Option Thread
advance ts (held, []) = none
advance ts (held, release l ∷ rest) = some (without l held, rest)
advance ts (held, acquire l ∷ rest) = if taken l ts then none else some (l ∷ held, rest)

-- The threads after a move of the one at `i`: none if there is none or it cannot move.
abbrev pub moved : ℕ → Option Thread → List Thread → Option (List Thread)
moved i none ts = none
moved i (some t) ts = some (set i t ts)

abbrev pub step_at : ℕ → List Thread → Option (List Thread)
step_at i ts = elim (get i ts) [ none ↦ none | some t ↦ moved i (advance ts t) ts ]

-- A schedule names the thread to move; one that cannot is passed over.
abbrev pub get_or_else : Option (List Thread) → List Thread → List Thread
get_or_else none ts = ts
get_or_else (some ts') ts = ts'

unfoldable pub run : List ℕ → List Thread → List Thread
run [] ts = ts
run (i ∷ schedule) ts = run schedule (get_or_else (step_at i ts) ts)

-- Threads that are to make these calls.
unfoldable pub start : List (List Call) → List Thread
unfolding program
start [] = []
start (calls ∷ others) = ([], program calls) ∷ start others

abbrev pub finished : List Thread → Bool
finished [] = true
finished (t ∷ ts) = is_empty t.1 && finished ts
