-- ===== src/Requests/Pipeline.antt =====
-- A scan that is started, inspected and built reaches the client that it is handed to.
use bdk_ffi.Prelude.{ℕ, Bool, List, [], ◌∷◌, Option, some, ok, map_ok, map_err, cast, ◌≡◌, refl}
use bdk_ffi.Extern.{Primitives}
use bdk_ffi.Errors.Electrum.{from_electrum}
use bdk_ffi.Errors.Esplora.Boxed.{from_esplora_box}
use bdk_ffi.Requests.Library.{ScanLibrary}
use bdk_ffi.Requests.Cell.{take, alloc}
use bdk_ffi.Requests.World.{
  World, SyncScriptInspector, FullScanScriptInspector, start_full_scan,
  start_sync_with_revealed_spks, inspect_spks, inspect_spks_for_all_keychains, spks_only,
}
use bdk_ffi.Requests.World
use bdk_ffi.Requests.Electrum
use bdk_ffi.Requests.Esplora

-- What was put into a new cell is what the first take gives.
pub take-alloc :
    {A : Type 0} (a : A) (cells : List (Option A))
    → (take (alloc a cells).0 (alloc a cells).1).0 ≡ some a
unfolding take alloc
take-alloc a [] = refl
take-alloc a (c ∷ cells) = take-alloc a cells

module _ (P : Primitives) (L : ScanLibrary P) where
  -- The two clients answer a full scan as the library answers for this request.
  abbrev pub Answers : L.FullScanRequest → ℕ → World P L → Type 0
  Answers request h w =
      ((client : L.ElectrumClient) (gap batch : ℕ) (fetch : Bool)
        → (Electrum.full_scan P L client h gap batch fetch w).0
          ≡ map_ok (Electrum.full_update P L) (
              map_err (from_electrum P) (
                L.electrum_full_scan client request (cast P.usize_bits gap)
                  (cast P.usize_bits batch) fetch)))
      × ((client : L.EsploraClient) (gap parallel : ℕ)
          → (Esplora.full_scan P L client h gap parallel w).0
            ≡ map_ok (Esplora.full_update P L) (
                map_err (from_esplora_box P) (
                  L.esplora_full_scan client request (cast P.usize_bits gap)
                    (cast P.usize_bits parallel))))

  pub Answers-of_content :
      (request : L.FullScanRequest) (h : ℕ) (w : World P L)
      → (take h w.full_requests).0 ≡ some request
      → Answers request h w
  unfolding Electrum.full_scan Esplora.full_scan
  Answers-of_content request h w e = (
    λ client gap batch fetch. rw (e, Electrum.full_scan),
    λ client gap parallel. rw (e, Esplora.full_scan),
  )

  inspect_full_at :
      (inspector : FullScanScriptInspector P L) (builder : L.FullScanRequestBuilder) (h : ℕ)
      (w : World P L)
      → (take h w.full_builders).0 ≡ some builder
      → (h' : ℕ) × (w' : World P L) × (inspect_spks_for_all_keychains P L inspector h w
          ≡ (ok h', w'))
        × ((take h' w'.full_builders).0 ≡ some (L.inspect_full inspector builder))
  unfolding inspect_spks_for_all_keychains
  inspect_full_at inspector builder h w e =
      let (h', cells') = alloc (L.inspect_full inspector builder) (take h w.full_builders).1 in
      (
        h',
        record w { full_builders = cells' },
        rw (e, inspect_spks_for_all_keychains),
        take-alloc _ (take h w.full_builders).1,
      )

  build_full_at :
      (builder : L.FullScanRequestBuilder) (h : ℕ) (w : World P L)
      → (take h w.full_builders).0 ≡ some builder
      → (h' : ℕ) × (w' : World P L) × (World.build_full P L h w ≡ (ok h', w'))
        × ((take h' w'.full_requests).0 ≡ some (L.build_full builder))
  unfolding World.build_full
  build_full_at builder h w e =
      let (h', requests) = alloc (L.build_full builder) w.full_requests in
      (
        h',
        record w { full_builders = (take h w.full_builders).1; full_requests = requests },
        rw (e, World.build_full),
        take-alloc _ w.full_requests,
      )

  inspect_sync_at :
      (inspector : SyncScriptInspector P L) (builder : L.SyncRequestBuilder) (h : ℕ) (w : World P L)
      → (take h w.sync_builders).0 ≡ some builder
      → (h' : ℕ) × (w' : World P L) × (inspect_spks P L inspector h w ≡ (ok h', w'))
        × ((take h' w'.sync_builders).0 ≡ some (L.inspect_sync (spks_only P L inspector) builder))
  unfolding inspect_spks
  inspect_sync_at inspector builder h w e =
      let (h', cells') =
        alloc (L.inspect_sync (spks_only P L inspector) builder) (take h w.sync_builders).1 in
      (
        h',
        record w { sync_builders = cells' },
        rw (e, inspect_spks),
        take-alloc _ (take h w.sync_builders).1,
      )

  build_sync_at :
      (builder : L.SyncRequestBuilder) (h : ℕ) (w : World P L)
      → (take h w.sync_builders).0 ≡ some builder
      → (h' : ℕ) × (w' : World P L) × (World.build_sync P L h w ≡ (ok h', w'))
        × ((take h' w'.sync_requests).0 ≡ some (L.build_sync builder))
  unfolding World.build_sync
  build_sync_at builder h w e =
      let (h', requests) = alloc (L.build_sync builder) w.sync_requests in
      (
        h',
        record w { sync_builders = (take h w.sync_builders).1; sync_requests = requests },
        rw (e, World.build_sync),
        take-alloc _ w.sync_requests,
      )

  -- A full scan that is started, inspected and built hands its client the library's request, built
  -- from that builder with that inspector: no call on the way fails, and either client answers as
  -- the library does for that request, with the numbers cut to `usize`, the response turned into an
  -- update and an error converted.
  pub full_scan_pipeline :
      (builder : L.FullScanRequestBuilder) (inspector : FullScanScriptInspector P L) (w : World P L)
      → let (h, w1) = start_full_scan P L builder w in
        (h2 h3 : ℕ) × (w2 w3 : World P L) × (inspect_spks_for_all_keychains P L inspector h w1
          ≡ (ok h2, w2))
        × (World.build_full P L h2 w2 ≡ (ok h3, w3))
        × Answers (L.build_full (L.inspect_full inspector builder)) h3 w3
  unfolding start_full_scan
  full_scan_pipeline builder inspector w =
      let (h, w1) = start_full_scan P L builder w in
      let (h2, w2, inspected, there) =
        inspect_full_at inspector builder h w1 (take-alloc builder w.full_builders) in
      let (h3, w3, built, here) = build_full_at (L.inspect_full inspector builder) h2 w2 there in
      (h2, h3, w2, w3, inspected, built, Answers-of_content _ h3 w3 here)

  -- The two clients answer a sync as the library answers for this request.
  abbrev pub AnswersSync : L.SyncRequest → ℕ → World P L → Type 0
  AnswersSync request h w =
      ((client : L.ElectrumClient) (batch : ℕ) (fetch : Bool)
        → (Electrum.sync P L client h batch fetch w).0
          ≡ map_ok (Electrum.sync_update P L) (
              map_err (from_electrum P)
                (L.electrum_sync client request (cast P.usize_bits batch) fetch)))
      × ((client : L.EsploraClient) (parallel : ℕ)
          → (Esplora.sync P L client h parallel w).0
            ≡ map_ok (Esplora.sync_update P L) (
                map_err (from_esplora_box P)
                  (L.esplora_sync client request (cast P.usize_bits parallel))))

  pub AnswersSync-of_content :
      (request : L.SyncRequest) (h : ℕ) (w : World P L)
      → (take h w.sync_requests).0 ≡ some request
      → AnswersSync request h w
  unfolding Electrum.sync Esplora.sync
  AnswersSync-of_content request h w e =
      (λ client batch fetch. rw (e, Electrum.sync), λ client parallel. rw (e, Esplora.sync))

  -- A sync that is started, inspected and built hands its client the library's request, built from
  -- that builder with the inspector that is shown scripts only: no call on the way fails, and
  -- either client answers as the library does for that request, with the number cut to `usize`, the
  -- response turned into an update and an error converted.
  pub sync_pipeline :
      (builder : L.SyncRequestBuilder) (inspector : SyncScriptInspector P L) (w : World P L)
      → let (h, w1) = start_sync_with_revealed_spks P L builder w in
        (h2 h3 : ℕ) × (w2 w3 : World P L) × (inspect_spks P L inspector h w1 ≡ (ok h2, w2))
        × (World.build_sync P L h2 w2 ≡ (ok h3, w3))
        × AnswersSync (L.build_sync (L.inspect_sync (spks_only P L inspector) builder)) h3 w3
  unfolding start_sync_with_revealed_spks
  sync_pipeline builder inspector w =
      let (h, w1) = start_sync_with_revealed_spks P L builder w in
      let (h2, w2, inspected, there) =
        inspect_sync_at inspector builder h w1 (take-alloc builder w.sync_builders) in
      let (h3, w3, built, here) = build_sync_at _ h2 w2 there in
      (h2, h3, w2, w3, inspected, built, AnswersSync-of_content _ h3 w3 here)
