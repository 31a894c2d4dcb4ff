-- ===== src/Requests/Conservation.antt =====
-- A scan that was started reaches a network client at most once, whatever else is called.
use bdk_ffi.Prelude.{ℕ, ◌+◌, List, [], ◌∷◌, ◌≡◌, refl, arith, Option-cases, inl, inr}
use bdk_ffi.Extern.{Primitives}
use bdk_ffi.Requests.Library.{ScanLibrary}
use bdk_ffi.Requests.Cell.{take, full, taken, full-take, full-alloc}
use bdk_ffi.Requests.World.{World, spks_only}
use bdk_ffi.Requests.Commands.{
  Command, start_full, start_sync, inspect_full, inspect_sync, build_full, build_sync,
  electrum_full, electrum_sync, esplora_full, esplora_sync, step, run,
}

module _ (P : Primitives) (L : ScanLibrary P) where
  -- Full scans that have been started and have not reached a client.
  abbrev pub pending_full : World P L → ℕ
  pending_full w = full w.full_builders + full w.full_requests

  -- Full scans that a command starts, and that it hands to a client.
  abbrev started_full : Command P L → ℕ
  started_full (start_full builder) = 1
  started_full _ = 0

  abbrev sent_full : Command P L → World P L → ℕ
  sent_full (electrum_full client h gap batch fetch) w = taken (take h w.full_requests).0
  sent_full (esplora_full client h gap parallel) w = taken (take h w.full_requests).0
  sent_full _ w = 0

  step-pending_full :
      (c : Command P L) (w : World P L)
      → pending_full (step P L c w) + sent_full c w ≡ pending_full w + started_full c
  unfolding step
  step-pending_full (start_full builder) w = omega (arith, full-alloc builder w.full_builders)
  step-pending_full (start_sync builder) w = omega arith
  step-pending_full (inspect_full inspector h) w = elim (Option-cases (take h w.full_builders).0) [
    | inl e ↦ ground (arith, full-take h w.full_builders)
    | inr (b, e) ↦ ground (
      arith,
      full-take h w.full_builders,
      full-alloc (L.inspect_full inspector b) (take h w.full_builders).1,
    )
  ]
  step-pending_full (inspect_sync inspector h) w = ground arith
  step-pending_full (build_full h) w = elim (Option-cases (take h w.full_builders).0) [
    | inl e ↦ ground (arith, full-take h w.full_builders)
    | inr (b, e) ↦
        ground (arith, full-take h w.full_builders, full-alloc (L.build_full b) w.full_requests)
  ]
  step-pending_full (build_sync h) w = ground arith
  step-pending_full (electrum_full client h gap batch fetch) w =
      ground (arith, full-take h w.full_requests)
  step-pending_full (electrum_sync client h batch fetch) w = ground arith
  step-pending_full (esplora_full client h gap parallel) w =
      ground (arith, full-take h w.full_requests)
  step-pending_full (esplora_sync client h parallel) w = ground arith

  -- Over a run: what the commands start, and what they hand to a client.
  abbrev pub all_started_full : List (Command P L) → ℕ
  all_started_full [] = 0
  all_started_full (c ∷ cs) = started_full c + all_started_full cs

  abbrev pub all_sent_full : List (Command P L) → World P L → ℕ
  all_sent_full [] w = 0
  all_sent_full (c ∷ cs) w = sent_full c w + all_sent_full cs (step P L c w)

  -- Over any sequence of calls, the full scans that are pending at the end and those that were
  -- handed to a client add up to those that were pending at the start and those that were started:
  -- no call loses a scan or makes a second one of it.
  pub run-pending_full :
      (cs : List (Command P L)) (w : World P L)
      → pending_full (run P L cs w) + all_sent_full cs w ≡ pending_full w + all_started_full cs
  unfolding run
  run-pending_full [] w = refl
  run-pending_full (c ∷ cs) w =
      omega (arith, step-pending_full c w, run-pending_full cs (step P L c w))

  -- Syncs that have been started and have not reached a client.
  abbrev pub pending_sync : World P L → ℕ
  pending_sync w = full w.sync_builders + full w.sync_requests

  -- Syncs that a command starts, and that it hands to a client.
  abbrev started_sync : Command P L → ℕ
  started_sync (start_sync builder) = 1
  started_sync _ = 0

  abbrev sent_sync : Command P L → World P L → ℕ
  sent_sync (electrum_sync client h batch fetch) w = taken (take h w.sync_requests).0
  sent_sync (esplora_sync client h parallel) w = taken (take h w.sync_requests).0
  sent_sync _ w = 0

  step-pending_sync :
      (c : Command P L) (w : World P L)
      → pending_sync (step P L c w) + sent_sync c w ≡ pending_sync w + started_sync c
  unfolding step
  step-pending_sync (start_full builder) w = omega arith
  step-pending_sync (start_sync builder) w = omega (arith, full-alloc builder w.sync_builders)
  step-pending_sync (inspect_full inspector h) w = ground arith
  step-pending_sync (inspect_sync inspector h) w = elim (Option-cases (take h w.sync_builders).0) [
    | inl e ↦ ground (arith, full-take h w.sync_builders)
    | inr (b, e) ↦ ground (
      arith,
      full-take h w.sync_builders,
      full-alloc (L.inspect_sync (spks_only P L inspector) b) (take h w.sync_builders).1,
    )
  ]
  step-pending_sync (build_full h) w = ground arith
  step-pending_sync (build_sync h) w = elim (Option-cases (take h w.sync_builders).0) [
    | inl e ↦ ground (arith, full-take h w.sync_builders)
    | inr (b, e) ↦
        ground (arith, full-take h w.sync_builders, full-alloc (L.build_sync b) w.sync_requests)
  ]
  step-pending_sync (electrum_full client h gap batch fetch) w = ground arith
  step-pending_sync (electrum_sync client h batch fetch) w =
      ground (arith, full-take h w.sync_requests)
  step-pending_sync (esplora_full client h gap parallel) w = ground arith
  step-pending_sync (esplora_sync client h parallel) w = ground (arith, full-take h w.sync_requests)

  -- Over a run: what the commands start, and what they hand to a client.
  abbrev pub all_started_sync : List (Command P L) → ℕ
  all_started_sync [] = 0
  all_started_sync (c ∷ cs) = started_sync c + all_started_sync cs

  abbrev pub all_sent_sync : List (Command P L) → World P L → ℕ
  all_sent_sync [] w = 0
  all_sent_sync (c ∷ cs) w = sent_sync c w + all_sent_sync cs (step P L c w)

  -- Over any sequence of calls, the syncs that are pending at the end and those that were handed to
  -- a client add up to those that were pending at the start and those that were started: no call
  -- loses a sync or makes a second one of it.
  pub run-pending_sync :
      (cs : List (Command P L)) (w : World P L)
      → pending_sync (run P L cs w) + all_sent_sync cs w ≡ pending_sync w + all_started_sync cs
  unfolding run
  run-pending_sync [] w = refl
  run-pending_sync (c ∷ cs) w =
      omega (arith, step-pending_sync c w, run-pending_sync cs (step P L c w))
