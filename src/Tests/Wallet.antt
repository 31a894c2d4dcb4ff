-- ===== src/Tests/Wallet.antt =====
-- A wallet that knows two transactions, and the theorems on its transactions and addresses.
use Prim.Native.Nat.{Ordering}
use mathlib.Core.List.{Permᴰ}
use mathlib.Core.List.Permᴰ
use text.Mathlib.Text.{◌==◌}
use bdk_ffi.Prelude.{
  ℕ, suc, ◌+◌, ◌-◌, true, false, List, [], ◌∷◌, map, Option, none, some, ok, All, Ordered, ◌≡◌, ◌≢◌,
  refl, ap, ◌∙◌, if◌then◌else◌, arith,
}
use bdk_ffi.Extern.{KeychainKind, external, internal}
use bdk_ffi.Views.Library.{BdkChainPosition, BdkCanonicalTx, BdkAddressInfo}
use bdk_ffi.Views.Records.{CanonicalTx, from_canonical_tx}
use bdk_ffi.Bitcoin.Transaction.{compute_txid}
use bdk_ffi.Wallet.Library.{WalletLibrary}
use bdk_ffi.Wallet.Methods.{transactions, get_tx, reveal_addresses_to, next_derivation_index}
use bdk_ffi.Wallet.Transactions.{
  flip, IsOrder, IsLedger, NotOlder, transactions-Ordered, get_tx-transactions,
}
use bdk_ffi.Wallet.Revealing.{range, IsRevealing, reveal_each, reveal_addresses_to-eq-each}
use bdk_ffi.Tests.Primitives.{plain}
use bdk_ffi.Tests.Bitcoin.{coins, payment}
use bdk_ffi.Tests.Requests.{scans}
use bdk_ffi.Tests.Positions.{hashes, compare_positions, positions-IsChainOrder}

abbrev Known : Type 0
Known = BdkCanonicalTx plain hashes

-- A transaction in block 800000, and one that is not confirmed.
abbrev older : Known
older = record {
  tx = payment;
  chain_position =
      BdkChainPosition.confirmed
        record {
          block_id = record { height = 800000; hash = "hash" };
          confirmation_time = 1700000000;
        }
        none;
}

abbrev newer : Known
newer = record {
  tx = record payment { version = 2 };
  chain_position = BdkChainPosition.unconfirmed (some 1700000100);
}

abbrev sorted : Ordering → List Known
sorted Ordering.lt = older ∷ newer ∷ []
sorted Ordering.eq = older ∷ newer ∷ []
sorted Ordering.gt = newer ∷ older ∷ []

sorted-Permᴰ : (o : Ordering) → Permᴰ (sorted o) (older ∷ newer ∷ [])
sorted-Permᴰ Ordering.lt = Permᴰ.refl _
sorted-Permᴰ Ordering.eq = Permᴰ.refl _
sorted-Permᴰ Ordering.gt = Permᴰ.swap refl refl

sorted-Ordered :
    (compare : Known → Known → Ordering) (o : Ordering)
    → IsOrder compare
    → compare older newer ≡ o
    → Ordered (λ a b. compare a b ≢ Ordering.gt) (sorted o)
sorted-Ordered compare Ordering.lt order e = ((λ e'. ground arith, tt), (tt, tt))
sorted-Ordered compare Ordering.eq order e = ((λ e'. ground arith, tt), (tt, tt))
sorted-Ordered compare Ordering.gt order e =
    let turned : compare newer older ≡ Ordering.lt = order.flips newer older ∙ ap flip e in
    ((λ e'. ground arith, tt), (tt, tt))

-- The wallet is how many addresses are revealed of each keychain.
abbrev index : ℕ × ℕ → KeychainKind → ℕ
index (e, i) external = e
index (e, i) internal = i

abbrev reveal : ℕ × ℕ → KeychainKind → ℕ → ℕ × ℕ
reveal (e, i) external n = (suc n, i)
reveal (e, i) internal n = (e, suc n)

index-reveal :
    (wallet : ℕ × ℕ) (keychain : KeychainKind) (n : ℕ)
    → index (reveal wallet keychain n) keychain ≡ suc n
index-reveal (e, i) external n = refl
index-reveal (e, i) internal n = refl

reveal-reveal :
    (wallet : ℕ × ℕ) (keychain : KeychainKind) (n m : ℕ)
    → reveal (reveal wallet keychain n) keychain m ≡ reveal wallet keychain m
reveal-reveal (e, i) external n m = refl
reveal-reveal (e, i) internal n m = refl

abbrev info : KeychainKind → ℕ → BdkAddressInfo plain coins
info keychain n = record { index = n; address = "bc1q"; keychain = keychain }

abbrev pub small : WalletLibrary plain coins hashes scans
small = record {
  Connection = Option (ℕ × ℕ);
  open_at = λ path. ok none;
  open_in_memory = ok none;
  create = λ external internal network db. (ok (0, 0), db);
  load = λ external internal db. (ok db, db);
  persist = λ wallet db. (ok true, wallet, some wallet);
  derivation_of_spk = λ wallet script. none;
  cancel_tx = λ wallet tx. wallet;
  get_utxo = λ wallet outpoint. none;
  reveal_next_address = λ wallet keychain.
      (info keychain (index wallet keychain), reveal wallet keychain (index wallet keychain));
  peek_address = λ wallet keychain n. info keychain n;
  next_derivation_index = index;
  next_unused_address = λ wallet keychain. (info keychain 0, wallet);
  mark_used = λ wallet keychain n. (false, wallet);
  reveal_addresses_to = λ wallet keychain n. (
    map (info keychain) (range (index wallet keychain) (suc (n - index wallet keychain))),
    reveal wallet keychain n,
  );
  list_unused_addresses = λ wallet keychain. [];
  apply_update = λ wallet update. (ok tt, (update.tx_update, update.last_active_indices));
  derivation_index = λ wallet keychain. none;
  descriptor_checksum = λ wallet keychain. "checksum";
  policies = λ wallet keychain. ok none;
  network = λ wallet. true;
  balance = λ wallet. record {
    immature = 0;
    trusted_pending = 0;
    untrusted_pending = 0;
    confirmed = 5000;
  };
  trusted_spendable = λ balance. balance.confirmed + balance.trusted_pending;
  total = λ balance.
      balance.confirmed + balance.trusted_pending + balance.untrusted_pending + balance.immature;
  is_mine = λ wallet script. false;
  sent_and_received = λ wallet tx. (0, 5000);
  compare = compare_positions;
  transactions_sort_by = λ wallet compare. sorted (compare older newer);
  get_tx = λ wallet txid. if txid == "first" then some older else some newer;
  calculate_fee = λ wallet tx. ok 100;
  calculate_fee_rate = λ wallet tx. ok 1;
  list_unspent = λ wallet. [];
  list_output = λ wallet. [];
  start_full_scan = λ wallet. 6;
  start_sync_with_revealed_spks = λ wallet. 7;
}

small-IsLedger : IsLedger plain coins hashes scans small
small-IsLedger = record {
  known = λ wallet. older ∷ newer ∷ [];
  sort_by-Permᴰ = λ wallet compare. sorted-Permᴰ (compare older newer);
  sort_by-Ordered = λ wallet compare order. sorted-Ordered compare (compare older newer) order refl;
  get_known = λ wallet. (refl, (refl, tt));
  parse_printed = λ txid. refl;
}

pub small-IsRevealing : IsRevealing plain coins hashes scans small
small-IsRevealing = record {
  HasWildcard = λ wallet keychain. Unit {0};
  revealed = reveal;
  revealed_wildcard = λ wallet keychain n wild. tt;
  reveal_next = λ wallet keychain wild lt. refl;
  reveal_to = λ wallet keychain n wild lt.
      let same : (index wallet keychain + n) - index wallet keychain ≡ n = omega arith in
      rw (same) refl;
  next_revealed = λ wallet keychain n wild le lt. index-reveal wallet keychain n;
  peek_revealed = λ wallet keychain n i. refl;
  peek_index = λ wallet keychain i wild. refl;
  revealed_further = λ wallet keychain n m. reveal-reveal wallet keychain n (n + m);
}

pub small-HasWildcard :
    (wallet : ℕ × ℕ) (keychain : KeychainKind) → small-IsRevealing.HasWildcard wallet keychain
unfolding small-IsRevealing
small-HasWildcard wallet keychain = tt

transactions-Ordered_example :
    (found : List Known) × Permᴰ found (older ∷ newer ∷ [])
    × (transactions plain coins hashes scans small (0, 0)
        ≡ map (from_canonical_tx plain hashes) found)
    × Ordered
        (λ (a b : CanonicalTx plain). NotOlder a.chain_position b.chain_position)
        (transactions plain coins hashes scans small (0, 0))
unfolding small-IsLedger
transactions-Ordered_example =
    transactions-Ordered plain coins hashes scans small small-IsLedger positions-IsChainOrder (0, 0)

get_tx-transactions_example :
    All
      (λ (tx : CanonicalTx plain).
        get_tx plain coins hashes scans small (0, 0) (compute_txid plain coins tx.transaction)
        ≡ ok (some tx))
      (transactions plain coins hashes scans small (0, 0))
get_tx-transactions_example =
    get_tx-transactions plain coins hashes scans small small-IsLedger (0, 0)

reveal_addresses_to-eq-each_example :
    reveal_addresses_to plain coins hashes scans small (3, 1) external 5
    ≡ reveal_each plain coins hashes scans small 3 (3, 1) external
unfolding next_derivation_index
reveal_addresses_to-eq-each_example =
    reveal_addresses_to-eq-each plain coins hashes scans small small-IsRevealing 2 (3, 1) external
      (small-HasWildcard (3, 1) external) (omega arith)
