-- ===== src/Requests/Later.antt =====
-- No call ever fills a cell again that has been emptied.
use bdk_ffi.Prelude.{List, [], ◌∷◌, Option, Option-cases, inl, inr}
use bdk_ffi.Extern.{Primitives}
use bdk_ffi.Requests.Library.{ScanLibrary}
use bdk_ffi.Requests.Cell.{take, StaysConsumed, take-StaysConsumed, alloc-StaysConsumed}
use bdk_ffi.Requests.World.{World, spks_only}
use bdk_ffi.Requests.Commands.{
  Command, start_full, start_sync, inspect_full, inspect_sync, build_full, build_sync,
  electrum_full, electrum_sync, esplora_full, esplora_sync, step, run,
}

module _ (P : Primitives) (L : ScanLibrary P) where
  -- No empty cell of the first world is full in the second.
  pub record Later (w w' : World P L) : Type 0 where
    pub full_builders : StaysConsumed w.full_builders w'.full_builders
    pub sync_builders : StaysConsumed w.sync_builders w'.sync_builders
    pub full_requests : StaysConsumed w.full_requests w'.full_requests
    pub sync_requests : StaysConsumed w.sync_requests w'.sync_requests

  full_builders-Later :
      (w : World P L) (cells : List (Option L.FullScanRequestBuilder))
      → StaysConsumed w.full_builders cells
      → Later w (record w { full_builders = cells })
  full_builders-Later w cells keeps = record {
    full_builders = keeps;
    sync_builders = λ h c. c;
    full_requests = λ h c. c;
    sync_requests = λ h c. c;
  }

  sync_builders-Later :
      (w : World P L) (cells : List (Option L.SyncRequestBuilder))
      → StaysConsumed w.sync_builders cells
      → Later w (record w { sync_builders = cells })
  sync_builders-Later w cells keeps = record {
    full_builders = λ h c. c;
    sync_builders = keeps;
    full_requests = λ h c. c;
    sync_requests = λ h c. c;
  }

  full_requests-Later :
      (w : World P L) (cells : List (Option L.FullScanRequest))
      → StaysConsumed w.full_requests cells
      → Later w (record w { full_requests = cells })
  full_requests-Later w cells keeps = record {
    full_builders = λ h c. c;
    sync_builders = λ h c. c;
    full_requests = keeps;
    sync_requests = λ h c. c;
  }

  sync_requests-Later :
      (w : World P L) (cells : List (Option L.SyncRequest))
      → StaysConsumed w.sync_requests cells
      → Later w (record w { sync_requests = cells })
  sync_requests-Later w cells keeps = record {
    full_builders = λ h c. c;
    sync_builders = λ h c. c;
    full_requests = λ h c. c;
    sync_requests = keeps;
  }

  Later-trans : (w w' w'' : World P L) → Later w w' → Later w' w'' → Later w w''
  Later-trans w w' w'' a b = record {
    full_builders = λ h c. b.full_builders h (a.full_builders h c);
    sync_builders = λ h c. b.sync_builders h (a.sync_builders h c);
    full_requests = λ h c. b.full_requests h (a.full_requests h c);
    sync_requests = λ h c. b.sync_requests h (a.sync_requests h c);
  }

  step-Later : (c : Command P L) (w : World P L) → Later w (step P L c w)
  unfolding step
  step-Later (start_full builder) w =
      full_builders-Later w _ (alloc-StaysConsumed builder w.full_builders)
  step-Later (start_sync builder) w =
      sync_builders-Later w _ (alloc-StaysConsumed builder w.sync_builders)
  step-Later (inspect_full inspector h) w =
      let taken = take-StaysConsumed h w.full_builders in
      elim (Option-cases (take h w.full_builders).0) [
        | inl e ↦ rw (e, step) (full_builders-Later w _ taken)
        | inr (b, e) ↦
            rw (e, step)
              (full_builders-Later w _ (λ k c.
                alloc-StaysConsumed (L.inspect_full inspector b) (take h w.full_builders).1 k
                  (taken k c)))
      ]
  step-Later (inspect_sync inspector h) w =
      let taken = take-StaysConsumed h w.sync_builders in
      elim (Option-cases (take h w.sync_builders).0) [
        | inl e ↦ rw (e, step) (sync_builders-Later w _ taken)
        | inr (b, e) ↦
            rw (e, step)
              (sync_builders-Later w _ (λ k c.
                alloc-StaysConsumed (L.inspect_sync (spks_only P L inspector) b)
                  (take h w.sync_builders).1 k (taken k c)))
      ]
  step-Later (build_full h) w =
      let taken = full_builders-Later w _ (take-StaysConsumed h w.full_builders) in
      elim (Option-cases (take h w.full_builders).0) [
        | inl e ↦ rw (e, step) taken
        | inr (b, e) ↦
            rw (e, step)
              (Later-trans w _ _ taken
                (full_requests-Later _ _ (alloc-StaysConsumed (L.build_full b) w.full_requests)))
      ]
  step-Later (build_sync h) w =
      let taken = sync_builders-Later w _ (take-StaysConsumed h w.sync_builders) in
      elim (Option-cases (take h w.sync_builders).0) [
        | inl e ↦ rw (e, step) taken
        | inr (b, e) ↦
            rw (e, step)
              (Later-trans w _ _ taken
                (sync_requests-Later _ _ (alloc-StaysConsumed (L.build_sync b) w.sync_requests)))
      ]
  step-Later (electrum_full client h gap batch fetch) w =
      let taken = full_requests-Later w _ (take-StaysConsumed h w.full_requests) in
      elim (Option-cases (take h w.full_requests).0) [
        | inl e ↦ rw (e, step) taken
        | inr (_, e) ↦ rw (e, step) taken
      ]
  step-Later (electrum_sync client h batch fetch) w =
      let taken = sync_requests-Later w _ (take-StaysConsumed h w.sync_requests) in
      elim (Option-cases (take h w.sync_requests).0) [
        | inl e ↦ rw (e, step) taken
        | inr (_, e) ↦ rw (e, step) taken
      ]
  step-Later (esplora_full client h gap parallel) w =
      let taken = full_requests-Later w _ (take-StaysConsumed h w.full_requests) in
      elim (Option-cases (take h w.full_requests).0) [
        | inl e ↦ rw (e, step) taken
        | inr (_, e) ↦ rw (e, step) taken
      ]
  step-Later (esplora_sync client h parallel) w =
      let taken = sync_requests-Later w _ (take-StaysConsumed h w.sync_requests) in
      elim (Option-cases (take h w.sync_requests).0) [
        | inl e ↦ rw (e, step) taken
        | inr (_, e) ↦ rw (e, step) taken
      ]

  pub run-Later : (cs : List (Command P L)) (w : World P L) → Later w (run P L cs w)
  unfolding run
  run-Later [] w = record {
    full_builders = λ h c. c;
    sync_builders = λ h c. c;
    full_requests = λ h c. c;
    sync_requests = λ h c. c;
  }
  run-Later (c ∷ cs) w = Later-trans w _ _ (step-Later c w) (run-Later cs (step P L c w))
