-- ===== src/Requests/Waits.antt =====
-- A request that was built is there until a call takes it.
use bdk_ffi.Prelude.{
  ℕ, zero, suc, List, [], ◌∷◌, Option, some, All, Option-cases, inl, inr, ◌≡◌, ◌≢◌, refl, arith,
}
use bdk_ffi.Extern.{Primitives}
use bdk_ffi.Requests.Library.{ScanLibrary}
use bdk_ffi.Requests.Cell.{take, alloc}
use bdk_ffi.Requests.World.{World}
use bdk_ffi.Requests.Commands.{
  Command, start_full, start_sync, inspect_full, inspect_sync, build_full, build_sync,
  electrum_full, electrum_sync, esplora_full, esplora_sync, step, run,
}
use bdk_ffi.Requests.Spent.{scans_full, scans_sync}
use bdk_ffi.Requests.Pipeline.{Answers, AnswersSync, Answers-of_content, AnswersSync-of_content}

module _ {A : Type 0} where
  -- The cell is full, with this content.
  abbrev Holds : ℕ → A → List (Option A) → Type 0
  Holds h a cells = (take h cells).0 ≡ some a

  take-Holds :
      (h k : ℕ) (a : A) (cells : List (Option A))
      → some k ≢ some h
      → Holds h a cells
      → Holds h a (take k cells).1
  unfolding take
  take-Holds h k a [] other full = full
  take-Holds zero zero a (c ∷ cells) other full = elim (other refl) [ ]
  take-Holds zero (suc k) a (c ∷ cells) other full = full
  take-Holds (suc h) zero a (c ∷ cells) other full = full
  take-Holds (suc h) (suc k) a (c ∷ cells) other full =
      take-Holds h k a cells (λ same. other (ground arith)) full

  alloc-Holds :
      (h : ℕ) (a b : A) (cells : List (Option A)) → Holds h a cells → Holds h a (alloc b cells).1
  unfolding take alloc
  alloc-Holds h a b [] full = ground arith
  alloc-Holds zero a b (c ∷ cells) full = full
  alloc-Holds (suc h) a b (c ∷ cells) full = alloc-Holds h a b cells full

module _ (P : Primitives) (L : ScanLibrary P) where
  step-Holds_full :
      (h : ℕ) (request : L.FullScanRequest) (c : Command P L) (w : World P L)
      → scans_full P L c ≢ some h
      → Holds h request w.full_requests
      → Holds h request (step P L c w).full_requests
  unfolding step
  step-Holds_full h request (electrum_full client k gap batch fetch) w other full =
      elim (Option-cases (take k w.full_requests).0) [
        | inl e ↦ rw (e, step) (take-Holds h k request w.full_requests other full)
        | inr (_, e) ↦ rw (e, step) (take-Holds h k request w.full_requests other full)
      ]
  step-Holds_full h request (esplora_full client k gap parallel) w other full =
      elim (Option-cases (take k w.full_requests).0) [
        | inl e ↦ rw (e, step) (take-Holds h k request w.full_requests other full)
        | inr (_, e) ↦ rw (e, step) (take-Holds h k request w.full_requests other full)
      ]
  step-Holds_full h request (build_full k) w other full =
      elim (Option-cases (take k w.full_builders).0) [
        | inl e ↦ rw (e, step) full
        | inr (b, e) ↦ rw (e, step) (alloc-Holds h request (L.build_full b) w.full_requests full)
      ]
  step-Holds_full h request (start_full builder) w other full = full
  step-Holds_full h request (start_sync builder) w other full = full
  step-Holds_full h request (inspect_full inspector k) w other full =
      elim (Option-cases (take k w.full_builders).0) [
        | inl e ↦ rw (e, step) full
        | inr (b, e) ↦ rw (e, step) full
      ]
  step-Holds_full h request (inspect_sync inspector k) w other full =
      elim (Option-cases (take k w.sync_builders).0) [
        | inl e ↦ rw (e, step) full
        | inr (b, e) ↦ rw (e, step) full
      ]
  step-Holds_full h request (build_sync k) w other full =
      elim (Option-cases (take k w.sync_builders).0) [
        | inl e ↦ rw (e, step) full
        | inr (b, e) ↦ rw (e, step) full
      ]
  step-Holds_full h request (electrum_sync client k batch fetch) w other full =
      elim (Option-cases (take k w.sync_requests).0) [
        | inl e ↦ rw (e, step) full
        | inr (_, e) ↦ rw (e, step) full
      ]
  step-Holds_full h request (esplora_sync client k parallel) w other full =
      elim (Option-cases (take k w.sync_requests).0) [
        | inl e ↦ rw (e, step) full
        | inr (_, e) ↦ rw (e, step) full
      ]

  step-Holds_sync :
      (h : ℕ) (request : L.SyncRequest) (c : Command P L) (w : World P L)
      → scans_sync P L c ≢ some h
      → Holds h request w.sync_requests
      → Holds h request (step P L c w).sync_requests
  unfolding step
  step-Holds_sync h request (electrum_sync client k batch fetch) w other full =
      elim (Option-cases (take k w.sync_requests).0) [
        | inl e ↦ rw (e, step) (take-Holds h k request w.sync_requests other full)
        | inr (_, e) ↦ rw (e, step) (take-Holds h k request w.sync_requests other full)
      ]
  step-Holds_sync h request (esplora_sync client k parallel) w other full =
      elim (Option-cases (take k w.sync_requests).0) [
        | inl e ↦ rw (e, step) (take-Holds h k request w.sync_requests other full)
        | inr (_, e) ↦ rw (e, step) (take-Holds h k request w.sync_requests other full)
      ]
  step-Holds_sync h request (build_sync k) w other full =
      elim (Option-cases (take k w.sync_builders).0) [
        | inl e ↦ rw (e, step) full
        | inr (b, e) ↦ rw (e, step) (alloc-Holds h request (L.build_sync b) w.sync_requests full)
      ]
  step-Holds_sync h request (start_full builder) w other full = full
  step-Holds_sync h request (start_sync builder) w other full = full
  step-Holds_sync h request (inspect_full inspector k) w other full =
      elim (Option-cases (take k w.full_builders).0) [
        | inl e ↦ rw (e, step) full
        | inr (b, e) ↦ rw (e, step) full
      ]
  step-Holds_sync h request (inspect_sync inspector k) w other full =
      elim (Option-cases (take k w.sync_builders).0) [
        | inl e ↦ rw (e, step) full
        | inr (b, e) ↦ rw (e, step) full
      ]
  step-Holds_sync h request (build_full k) w other full =
      elim (Option-cases (take k w.full_builders).0) [
        | inl e ↦ rw (e, step) full
        | inr (b, e) ↦ rw (e, step) full
      ]
  step-Holds_sync h request (electrum_full client k gap batch fetch) w other full =
      elim (Option-cases (take k w.full_requests).0) [
        | inl e ↦ rw (e, step) full
        | inr (_, e) ↦ rw (e, step) full
      ]
  step-Holds_sync h request (esplora_full client k gap parallel) w other full =
      elim (Option-cases (take k w.full_requests).0) [
        | inl e ↦ rw (e, step) full
        | inr (_, e) ↦ rw (e, step) full
      ]

  run-Holds :
      (holds : World P L → Type 0) (leaves : Command P L → Type 0)
      → ((c : Command P L) (w : World P L) → leaves c → holds w → holds (step P L c w))
      → (cs : List (Command P L)) (w : World P L) → All leaves cs
      → holds w
      → holds (run P L cs w)
  unfolding run
  run-Holds holds leaves stays [] w others full = full
  run-Holds holds leaves stays (c ∷ cs) w (other, others) full =
      run-Holds holds leaves stays cs (step P L c w) others (stays c w other full)

  -- A request waits for its client: whatever is called in the meantime on other builders, requests and
  -- clients, as long as no call scans this full scan request or this sync request, either client
  -- afterwards answers a scan of it as the library answers for its content, with the numbers cut to
  -- `usize`, the response turned into an update and an error converted.
  pub run-Answers :
      (h k : ℕ) (full : L.FullScanRequest) (sync : L.SyncRequest) (cs : List (Command P L))
      (w : World P L)
      → (take h w.full_requests).0 ≡ some full
      → (take k w.sync_requests).0 ≡ some sync
      → All (λ c. (scans_full P L c ≢ some h) × (scans_sync P L c ≢ some k)) cs
      → Answers P L full h (run P L cs w) × AnswersSync P L sync k (run P L cs w)
  run-Answers h k full sync cs w there there' others = (
    Answers-of_content P L full h (run P L cs w) (
        run-Holds (λ w'. Holds h full w'.full_requests) _
          (λ c w' (other, _) here. step-Holds_full h full c w' other here) cs w others there),
    AnswersSync-of_content P L sync k (run P L cs w) (
        run-Holds (λ w'. Holds k sync w'.sync_requests) _
          (λ c w' (_, other) here. step-Holds_sync k sync c w' other here) cs w others there'),
  )
