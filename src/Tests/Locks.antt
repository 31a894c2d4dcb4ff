-- ===== src/Tests/Locks.antt =====
-- Three threads that sign, persist and finalize over one wallet, and the theorem on locks at them.
use native.Mathlib.Decide.{ℕ_discrete}
use bdk_ffi.Prelude.{ℕ, List, [], ◌∷◌, ◌≡◌, refl}
use bdk_ffi.Locks.Methods.{Call, sign, finalize_psbt, persist, finish, combine}
use bdk_ffi.Locks.Threads.{run, start, same}
use bdk_ffi.Locks.Completion.{work, EndsWithin, run-EndsWithin}

abbrev calls : List (List Call)
calls =
    (sign 0 0 ∷ persist 0 0 ∷ [])
    ∷ (persist 0 0 ∷ combine 0 0 ∷ [])
    ∷ (finish 0 ∷ finalize_psbt 0 0 ∷ [])
    ∷ []

-- The first thread has the PSBT, the second the store, and the third the wallet, for which the others wait.
abbrev schedule : List ℕ
schedule = 0 ∷ 1 ∷ 2 ∷ 0 ∷ 1 ∷ 0 ∷ []

run-EndsWithin_example : EndsWithin (work (run schedule (start calls))) (run schedule (start calls))
run-EndsWithin_example = run-EndsWithin calls schedule

-- Three moves have been made, and the other three were attempts to take what is held.
work_left : work (run schedule (start calls)) ≡ 19
unfolding run start same ℕ_discrete
work_left = refl
