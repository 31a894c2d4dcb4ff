-- ===== src/Requests/Spent.antt =====
-- The calls that take the content of an object, each of which leaves its cell empty.
use mathlib.Core.Option.{some-injective}
use bdk_ffi.Prelude.{Option-cases, inl, inr, ℕ, ◌<◌, List, Option, none, some, ◌≡◌, length}
use bdk_ffi.Extern.{Primitives}
use bdk_ffi.Requests.Library.{ScanLibrary}
use bdk_ffi.Requests.Cell.{take, Consumed, Consumed-take_at, alloc-StaysConsumed}
use bdk_ffi.Requests.World.{World, spks_only}
use bdk_ffi.Requests.Commands.{
  Command, inspect_full, inspect_sync, build_full, build_sync, electrum_full, electrum_sync,
  esplora_full, esplora_sync, step,
}

taken_at :
    {A : Type 0} (h k : ℕ) (cells : List (Option A))
    → k ≡ h
    → h < length cells
    → Consumed h (take k cells).1
taken_at h k cells e lt = rw e (Consumed-take_at h cells lt)

module _ (P : Primitives) (L : ScanLibrary P) where
  -- The full scan request that a command hands to a client, and so on for the other objects.
  abbrev pub scans_full : Command P L → Option ℕ
  scans_full (electrum_full client h gap batch fetch) = some h
  scans_full (esplora_full client h gap parallel) = some h
  scans_full _ = none

  abbrev pub scans_sync : Command P L → Option ℕ
  scans_sync (electrum_sync client h batch fetch) = some h
  scans_sync (esplora_sync client h parallel) = some h
  scans_sync _ = none

  abbrev pub uses_full_builder : Command P L → Option ℕ
  uses_full_builder (inspect_full inspector h) = some h
  uses_full_builder (build_full h) = some h
  uses_full_builder _ = none

  abbrev pub uses_sync_builder : Command P L → Option ℕ
  uses_sync_builder (inspect_sync inspector h) = some h
  uses_sync_builder (build_sync h) = some h
  uses_sync_builder _ = none

  pub scans_full-Consumed :
      (c : Command P L) (h : ℕ) (w : World P L)
      → scans_full c ≡ some h
      → h < length w.full_requests
      → Consumed h (step P L c w).full_requests
  unfolding step
  scans_full-Consumed (electrum_full client k gap batch fetch) h w e lt =
      let spent = taken_at h k w.full_requests (some-injective k h e) lt in
      elim (Option-cases (take k w.full_requests).0) [
        | inl none_left ↦ rw (none_left, step) spent
        | inr (_, content) ↦ rw (content, step) spent
      ]
  scans_full-Consumed (esplora_full client k gap parallel) h w e lt =
      let spent = taken_at h k w.full_requests (some-injective k h e) lt in
      elim (Option-cases (take k w.full_requests).0) [
        | inl none_left ↦ rw (none_left, step) spent
        | inr (_, content) ↦ rw (content, step) spent
      ]
  scans_full-Consumed _ h w e lt = cc

  pub scans_sync-Consumed :
      (c : Command P L) (h : ℕ) (w : World P L)
      → scans_sync c ≡ some h
      → h < length w.sync_requests
      → Consumed h (step P L c w).sync_requests
  unfolding step
  scans_sync-Consumed (electrum_sync client k batch fetch) h w e lt =
      let spent = taken_at h k w.sync_requests (some-injective k h e) lt in
      elim (Option-cases (take k w.sync_requests).0) [
        | inl none_left ↦ rw (none_left, step) spent
        | inr (_, content) ↦ rw (content, step) spent
      ]
  scans_sync-Consumed (esplora_sync client k parallel) h w e lt =
      let spent = taken_at h k w.sync_requests (some-injective k h e) lt in
      elim (Option-cases (take k w.sync_requests).0) [
        | inl none_left ↦ rw (none_left, step) spent
        | inr (_, content) ↦ rw (content, step) spent
      ]
  scans_sync-Consumed _ h w e lt = cc

  pub uses_full_builder-Consumed :
      (c : Command P L) (h : ℕ) (w : World P L)
      → uses_full_builder c ≡ some h
      → h < length w.full_builders
      → Consumed h (step P L c w).full_builders
  unfolding step
  uses_full_builder-Consumed (inspect_full inspector k) h w e lt =
      let spent = taken_at h k w.full_builders (some-injective k h e) lt in
      elim (Option-cases (take k w.full_builders).0) [
        | inl none_left ↦ rw (none_left, step) spent
        | inr (b, content) ↦
            rw (content, step) (alloc-StaysConsumed (L.inspect_full inspector b) _ h spent)
      ]
  uses_full_builder-Consumed (build_full k) h w e lt =
      let spent = taken_at h k w.full_builders (some-injective k h e) lt in
      elim (Option-cases (take k w.full_builders).0) [
        | inl none_left ↦ rw (none_left, step) spent
        | inr (b, content) ↦ rw (content, step) spent
      ]
  uses_full_builder-Consumed _ h w e lt = cc

  pub uses_sync_builder-Consumed :
      (c : Command P L) (h : ℕ) (w : World P L)
      → uses_sync_builder c ≡ some h
      → h < length w.sync_builders
      → Consumed h (step P L c w).sync_builders
  unfolding step
  uses_sync_builder-Consumed (inspect_sync inspector k) h w e lt =
      let spent = taken_at h k w.sync_builders (some-injective k h e) lt in
      elim (Option-cases (take k w.sync_builders).0) [
        | inl none_left ↦ rw (none_left, step) spent
        | inr (b, content) ↦
            rw (content, step)
              (alloc-StaysConsumed (L.inspect_sync (spks_only P L inspector) b) _ h spent)
      ]
  uses_sync_builder-Consumed (build_sync k) h w e lt =
      let spent = taken_at h k w.sync_builders (some-injective k h e) lt in
      elim (Option-cases (take k w.sync_builders).0) [
        | inl none_left ↦ rw (none_left, step) spent
        | inr (b, content) ↦ rw (content, step) spent
      ]
  uses_sync_builder-Consumed _ h w e lt = cc
