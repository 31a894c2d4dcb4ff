-- ===== src/Tests/Requests.antt =====
-- A library whose requests are numbers, and the theorems on scans at it.
use native.Mathlib.Omega.{arith}
use bdk_ffi.Prelude.{
  ℕ, suc, ◌+◌, ◌*◌, true, false, List, [], ◌∷◌, none, some, ok, length, ◌≡◌, ◌≢◌, refl,
}
use bdk_ffi.Extern.{external}
use bdk_ffi.Requests.Library.{ScanLibrary, spk}
use bdk_ffi.Requests.World.{World, FullScanScriptInspector, SyncScriptInspector}
use bdk_ffi.Requests.Commands.{Command, step, run}
use bdk_ffi.Requests.Refused.{FullScanRefused, SyncRefused, FullBuilderRefused, SyncBuilderRefused}
use bdk_ffi.Requests.Once.{full_scan_once, sync_once, full_builder_once, sync_builder_once}
use bdk_ffi.Requests.Conservation.{
  pending_full, all_sent_full, all_started_full, run-pending_full, pending_sync, all_sent_sync,
  all_started_sync, run-pending_sync,
}
use bdk_ffi.Requests.Reported.{ReportsConsumed, already_consumed_iff}
use bdk_ffi.Requests.Pipeline.{Answers, AnswersSync}
use bdk_ffi.Requests.Waits.{run-Answers}
use bdk_ffi.Tests.Primitives.{plain}

abbrev pub scans : ScanLibrary plain
scans = record {
  FullScanRequestBuilder = ℕ;
  SyncRequestBuilder = ℕ;
  FullScanRequest = ℕ;
  SyncRequest = ℕ;
  Event = ℕ;
  inspect_full = λ inspector builder. builder + length (inspector external 0 5);
  inspect_sync = λ inspector builder. builder + length (inspector (spk 5) 1);
  build_full = λ builder. builder * 10;
  build_sync = λ builder. builder * 10;
  Indices = ℕ;
  TxUpdate = ℕ;
  ChainUpdate = ℕ;
  no_indices = 0;
  ElectrumClient = ℕ;
  electrum_full_scan = λ client request gap batch fetch.
      ok (record { last_active_indices = gap; tx_update = request; chain_update = some batch });
  electrum_sync =
      λ client request batch fetch. ok (record { tx_update = request; chain_update = some batch });
  EsploraClient = ℕ;
  esplora_full_scan = λ client request gap parallel.
      ok (record { last_active_indices = gap; tx_update = request; chain_update = some parallel });
  esplora_sync =
      λ client request parallel. ok (record { tx_update = request; chain_update = none });
}

abbrev pub full_inspector : FullScanScriptInspector plain scans
full_inspector kind index script = index ∷ script ∷ []

abbrev pub sync_inspector : SyncScriptInspector plain scans
sync_inspector script total = script ∷ total ∷ []

-- One of each object, all of them still full.
abbrev pub start : World plain scans
start = record {
  full_builders = some 1 ∷ [];
  sync_builders = some 2 ∷ [];
  full_requests = some 3 ∷ [];
  sync_requests = some 4 ∷ [];
}

-- Other foreign code, between the two uses of an object.
abbrev meanwhile : List (Command plain scans)
meanwhile =
    Command.start_full 7
    ∷ Command.inspect_full full_inspector 0
    ∷ Command.build_full 1
    ∷ Command.electrum_full 0 1 20 5 true
    ∷ Command.start_sync 8
    ∷ Command.build_sync 0
    ∷ Command.esplora_sync 0 0 4
    ∷ []

full_scan_once_example :
    FullScanRefused plain scans 0
      (run plain scans meanwhile (step plain scans (Command.electrum_full 0 0 20 5 false) start))
full_scan_once_example =
    full_scan_once plain scans (Command.electrum_full 0 0 20 5 false) 0 start meanwhile refl
      (omega arith)

sync_once_example :
    SyncRefused plain scans 0
      (run plain scans meanwhile (step plain scans (Command.esplora_sync 0 0 4) start))
sync_once_example =
    sync_once plain scans (Command.esplora_sync 0 0 4) 0 start meanwhile refl (omega arith)

full_builder_once_example :
    FullBuilderRefused plain scans 0
      (run plain scans meanwhile (step plain scans (Command.build_full 0) start))
full_builder_once_example =
    full_builder_once plain scans (Command.build_full 0) 0 start meanwhile refl (omega arith)

sync_builder_once_example :
    SyncBuilderRefused plain scans 0
      (run plain scans meanwhile (step plain scans (Command.inspect_sync sync_inspector 0) start))
sync_builder_once_example =
    sync_builder_once plain scans (Command.inspect_sync sync_inspector 0) 0 start meanwhile refl
      (omega arith)

run-pending_full_example :
    pending_full plain scans (run plain scans meanwhile start)
      + all_sent_full plain scans meanwhile start
    ≡ pending_full plain scans start + all_started_full plain scans meanwhile
run-pending_full_example = run-pending_full plain scans meanwhile start

run-pending_sync_example :
    pending_sync plain scans (run plain scans meanwhile start)
      + all_sent_sync plain scans meanwhile start
    ≡ pending_sync plain scans start + all_started_sync plain scans meanwhile
run-pending_sync_example = run-pending_sync plain scans meanwhile start

already_consumed_iff_example : ReportsConsumed plain scans 0 start
already_consumed_iff_example = already_consumed_iff plain scans 0 start

-- Calls that leave the two requests alone, though they scan others.
abbrev elsewhere : List (Command plain scans)
elsewhere =
    Command.start_full 7
    ∷ Command.build_full 0
    ∷ Command.electrum_full 0 1 20 5 true
    ∷ Command.esplora_sync 0 1 4
    ∷ []

nowhere : (h : ℕ) → none ≢ some h
nowhere h same = ground arith

not_the_first : (h : ℕ) → some (suc h) ≢ some 0
not_the_first h same = ground arith

run-Answers_example :
    Answers plain scans 3 0 (run plain scans elsewhere start)
    × AnswersSync plain scans 4 0 (run plain scans elsewhere start)
unfolding bdk_ffi.Requests.Cell.take
run-Answers_example = run-Answers plain scans 0 0 3 4 elsewhere start refl refl (
  (nowhere 0, nowhere 0),
  ((nowhere 0, nowhere 0), ((not_the_first 0, nowhere 0), ((nowhere 0, not_the_first 0), tt))),
)
