-- ===== src/Requests/Once.antt =====
-- A builder is built or inspected once, and a request is scanned once, whatever else is called.
use bdk_ffi.Prelude.{ℕ, ◌<◌, List, some, ◌≡◌, length}
use bdk_ffi.Extern.{Primitives}
use bdk_ffi.Requests.Library.{ScanLibrary}
use bdk_ffi.Requests.World.{World}
use bdk_ffi.Requests.Commands.{Command, step, run}
use bdk_ffi.Requests.Later.{run-Later}
use bdk_ffi.Requests.Refused.{
  FullScanRefused, SyncRefused, FullBuilderRefused, SyncBuilderRefused, FullScanRefused-of_Consumed,
  SyncRefused-of_Consumed, FullBuilderRefused-of_Consumed, SyncBuilderRefused-of_Consumed,
}
use bdk_ffi.Requests.Spent.{
  scans_full, scans_sync, uses_full_builder, uses_sync_builder, scans_full-Consumed,
  scans_sync-Consumed, uses_full_builder-Consumed, uses_sync_builder-Consumed,
}

module _ (P : Primitives) (L : ScanLibrary P) where
  -- Once a client was given a full scan request that exists, every later full scan of that request,
  -- by either client and after any sequence of other calls, fails with "already consumed" and
  -- changes nothing.
  pub full_scan_once :
      (c : Command P L) (h : ℕ) (w : World P L) (cs : List (Command P L))
      → scans_full P L c ≡ some h
      → h < length w.full_requests
      → FullScanRefused P L h (run P L cs (step P L c w))
  full_scan_once c h w cs e lt =
      FullScanRefused-of_Consumed P L h _
        ((run-Later P L cs (step P L c w)).full_requests h (scans_full-Consumed P L c h w e lt))

  -- Once a client was given a sync request that exists, every later sync of that request, by either
  -- client and after any sequence of other calls, fails with "already consumed" and changes
  -- nothing.
  pub sync_once :
      (c : Command P L) (h : ℕ) (w : World P L) (cs : List (Command P L))
      → scans_sync P L c ≡ some h
      → h < length w.sync_requests
      → SyncRefused P L h (run P L cs (step P L c w))
  sync_once c h w cs e lt =
      SyncRefused-of_Consumed P L h _
        ((run-Later P L cs (step P L c w)).sync_requests h (scans_sync-Consumed P L c h w e lt))

  -- Once a full scan builder that exists was inspected or built, both calls on it fail with
  -- "already consumed" and change nothing, whatever sequence of calls came in between.
  pub full_builder_once :
      (c : Command P L) (h : ℕ) (w : World P L) (cs : List (Command P L))
      → uses_full_builder P L c ≡ some h
      → h < length w.full_builders
      → FullBuilderRefused P L h (run P L cs (step P L c w))
  full_builder_once c h w cs e lt = FullBuilderRefused-of_Consumed P L h _ (
      (run-Later P L cs (step P L c w)).full_builders h (uses_full_builder-Consumed P L c h w e lt))

  -- Once a sync builder that exists was inspected or built, both calls on it fail with "already
  -- consumed" and change nothing, whatever sequence of calls came in between.
  pub sync_builder_once :
      (c : Command P L) (h : ℕ) (w : World P L) (cs : List (Command P L))
      → uses_sync_builder P L c ≡ some h
      → h < length w.sync_builders
      → SyncBuilderRefused P L h (run P L cs (step P L c w))
  sync_builder_once c h w cs e lt = SyncBuilderRefused-of_Consumed P L h _ (
      (run-Later P L cs (step P L c w)).sync_builders h (uses_sync_builder-Consumed P L c h w e lt))
