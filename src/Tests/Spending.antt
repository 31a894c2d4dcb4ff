-- ===== src/Tests/Spending.antt =====
-- A transaction that is built, signed and sent, with PSBTs that are what the recording builder has seen.
use bdk_ffi.Prelude.{ℕ, ◌<◌, true, false, String, List, [], ◌∷◌, none, some, ok, err, ◌≡◌, refl}
use bdk_ffi.Types.LockTime.{BdkLockTime}
use bdk_ffi.Psbt.Library.{PsbtLibrary}
use bdk_ffi.Psbt.Methods.{Psbts}
use bdk_ffi.Builder.Fluent.{TxBuilder}
use bdk_ffi.Builder.Fluent
use bdk_ffi.Builder.Finish.{finish}
use bdk_ffi.Requests.Library.{ScanLibrary}
use bdk_ffi.Clients.Library.{ClientLibrary}
use bdk_ffi.Spending.{Broadcaster, payment, spend}
use bdk_ffi.Spending.Outcome.{Comes, spend-Comes}
use bdk_ffi.Tests.Positions.{hashes}
use bdk_ffi.Tests.Builder.{logged, recorders, recording}

abbrev signing : PsbtLibrary recorders
signing = record {
  JsonError = String;
  TapLeavesOptions = ℕ;
  default_tap_leaves = 0;
  default_sign_options = record {
    trust_witness_utxo = false;
    assume_height = none;
    allow_all_sighashes = false;
    try_finalize = true;
    tap_leaves_options = 0;
    sign_with_tap_internal_key = true;
    allow_grinding = true;
  };
  to_sat_per_vb_ceil = λ rate. rate;
  to_sat = λ amount. amount;
  from_str = λ text. ok record { log = []; fee = 0 };
  to_string = λ psbt. "psbt";
  to_json = λ psbt. ok "{}";
  -- The transaction has the fee of its PSBT as its version.
  extract_tx = λ psbt.
      ok record { version = psbt.fee; lock_time = BdkLockTime.seconds 0; input = []; output = [] };
  fee = λ psbt. ok psbt.fee;
  combine = λ psbt other. (ok tt, psbt);
  finalize = λ psbt. ok psbt;
  sign = λ wallet psbt options. (ok true, logged 99 psbt);
  finalize_psbt = λ wallet psbt options. (ok true, psbt);
}

abbrev scanning : ScanLibrary recorders
scanning = record {
  FullScanRequestBuilder = ℕ;
  SyncRequestBuilder = ℕ;
  FullScanRequest = ℕ;
  SyncRequest = ℕ;
  Event = ℕ;
  inspect_full = λ inspector builder. builder;
  inspect_sync = λ inspector builder. builder;
  build_full = λ builder. builder;
  build_sync = λ builder. builder;
  Indices = ℕ;
  TxUpdate = ℕ;
  ChainUpdate = ℕ;
  no_indices = 0;
  ElectrumClient = ℕ;
  electrum_full_scan = λ client request gap batch fetch.
      ok (record { last_active_indices = gap; tx_update = request; chain_update = none });
  electrum_sync =
      λ client request batch fetch. ok (record { tx_update = request; chain_update = none });
  EsploraClient = ℕ;
  esplora_full_scan = λ client request gap parallel.
      ok (record { last_active_indices = gap; tx_update = request; chain_update = none });
  esplora_sync =
      λ client request parallel. ok (record { tx_update = request; chain_update = none });
}

abbrev asking : ClientLibrary recorders scanning hashes
asking = record {
  Float = ℕ;
  txid_from_str = λ text. ok text;
  to_hex_string = λ bytes. "hex";
  electrum_new = λ url. ok 0;
  transaction_broadcast = λ client tx. ok "txid";
  server_features = λ client. ok record {
    server_version = "1";
    genesis_hash = [];
    protocol_min = "1.4";
    protocol_max = "1.4";
    hash_function = none;
    pruning = none;
  };
  estimate_fee = λ client number. ok number;
  esplora_new = λ url. 0;
  broadcast = λ client tx. ok tt;
  get_tx = λ client txid. ok none;
  get_height = λ client. ok 800000;
  get_fee_estimates = λ client. ok [];
  get_block_hash = λ client height. ok "hash";
  get_tx_status = λ client txid.
      ok record { confirmed = false; block_height = none; block_hash = none; block_time = none };
  get_tx_info = λ client txid. ok none;
}

-- One PSBT that is there already.
abbrev shelf : Psbts recorders signing
shelf = record { content = λ h. record { log = []; fee = h }; next = 1 }

abbrev small_payment : TxBuilder recorders
small_payment = Fluent.add_recipient recorders 40 2 (Fluent.new recorders)

spend-Comes_example :
    Comes recorders recording signing scanning hashes asking
      (spend recorders recording signing scanning hashes asking
        (payment small_payment)
        none
        (Broadcaster.electrum 0)
        (0, shelf))
      shelf
      (ok tt, 2)
unfolding finish Fluent.add_recipient Fluent.new bdk_ffi.Prelude.Actions.for_each
    bdk_ffi.Clients.Electrum.transaction_broadcast
spend-Comes_example =
    spend-Comes recorders recording signing scanning hashes asking (payment small_payment) none
      (Broadcaster.electrum 0) 0 shelf
