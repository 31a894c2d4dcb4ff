-- ===== src/Locks/Order.antt =====
-- The locks are taken in one order: a wallet's lock last.
use native.Mathlib.Decide.{ℕ_discrete}
use bdk_ffi.Prelude.{
  ℕ, ◌<◌, true, false, List, [], ◌∷◌, ◌++◌, All, Bool-cases, inl, inr, ◌≡◌, refl, arith,
}
use bdk_ffi.Prelude.HashSet.{eq}
use bdk_ffi.Locks.Methods.{
  Lock, wallet, psbt, connection, request, path, acquire, release, Program, holding, Call, finish,
  bump_finish, on_wallet, new_wallet, load, sign, finalize_psbt, persist, on_psbt, combine,
  on_request, with_path, locks, program,
}
use bdk_ffi.Locks.Threads.{same, among, without}

abbrev pub rank : Lock → ℕ
rank (wallet _) = 2
rank _ = 1

-- Every lock that is held is of a lower rank.
abbrev pub Below : List Lock → Lock → Type 0
Below held l = All (λ h. rank h < rank l) held

-- A program takes locks in order of their rank, and releases all.
abbrev pub Ordered : List Lock → Program → Type 0
Ordered held [] = held ≡ []
Ordered held (acquire l ∷ rest) = Below held l × Ordered (l ∷ held) rest
Ordered held (release l ∷ rest) = Ordered (without l held) rest

eq_same : (n : ℕ) → eq ℕ_discrete n n ≡ true
eq_same n = elim (ℕ_discrete n n) as (λ d. elim d [ yes p ↦ true | no p ↦ false ] ≡ true) [
  | yes p ↦ refl
  | no p ↦ elim (p refl) [ ]
]

same_self : (l : Lock) → same l l ≡ true
unfolding same
same_self (wallet n) = eq_same n
same_self (psbt n) = eq_same n
same_self (connection n) = eq_same n
same_self (request n) = eq_same n
same_self (path n) = eq_same n

pub same-rank : (l h : Lock) → same l h ≡ true → rank l ≡ rank h
unfolding same
same-rank (wallet n) (wallet m) e = refl
same-rank (psbt n) (psbt m) e = refl
same-rank _ _ e = ground arith

-- A thread that waits for a lock above all that it holds does not hold it.
pub among-Below :
    (l k : Lock) (held : List Lock) → among l held ≡ true → Below held k → rank l < rank k
among-Below l k [] e below = ground arith
among-Below l k (h ∷ held) e (lt, below) = elim (Bool-cases (same l h)) [
  | inl yes_same ↦ rw (same-rank l h yes_same) lt
  | inr no_same ↦ among-Below l k held (ground arith) below
]

holding-Ordered : (l : Lock) → Ordered [] (holding l)
holding-Ordered l = (tt, rw (same_self l))

-- The locks of a PSBT or a connection, and then those of a wallet.
nested-Ordered :
    (l k : Lock)
    → same l k ≡ false
    → rank l < rank k
    → Ordered [] (acquire l ∷ acquire k ∷ release l ∷ release k ∷ [])
nested-Ordered l k different below = ((tt), ((below, tt), rw (different, same_self l, same_self k)))

pub append-Ordered :
    (held : List Lock) (p q : Program) → Ordered held p → Ordered [] q → Ordered held (p ++ q)
append-Ordered held [] q e hq = rw e hq
append-Ordered held (acquire l ∷ p) q (below, hp) hq = (below, append-Ordered (l ∷ held) p q hp hq)
append-Ordered held (release l ∷ p) q hp hq = append-Ordered (without l held) p q hp hq

locks-Ordered : (c : Call) → Ordered [] (locks c)
unfolding locks same
locks-Ordered (finish w) = holding-Ordered (wallet w)
locks-Ordered (bump_finish w) = holding-Ordered (wallet w)
locks-Ordered (on_wallet w) = holding-Ordered (wallet w)
locks-Ordered (new_wallet c) = holding-Ordered (connection c)
locks-Ordered (load c) = holding-Ordered (connection c)
locks-Ordered (sign p w) = nested-Ordered (psbt p) (wallet w) refl (omega arith)
locks-Ordered (finalize_psbt p w) = nested-Ordered (psbt p) (wallet w) refl (omega arith)
locks-Ordered (persist c w) = nested-Ordered (connection c) (wallet w) refl (omega arith)
locks-Ordered (on_psbt p) = holding-Ordered (psbt p)
locks-Ordered (combine p other) =
    append-Ordered [] (holding (psbt p)) (holding (psbt other)) (holding-Ordered (psbt p))
      (holding-Ordered (psbt other))
locks-Ordered (on_request r) = holding-Ordered (request r)
locks-Ordered (with_path k) = holding-Ordered (path k)

-- Whatever calls a thread makes, it takes the locks in order and ends without any.
pub program-Ordered : (cs : List Call) → Ordered [] (program cs)
unfolding program
program-Ordered [] = refl
program-Ordered (c ∷ cs) =
    append-Ordered [] (locks c) (program cs) (locks-Ordered c) (program-Ordered cs)
