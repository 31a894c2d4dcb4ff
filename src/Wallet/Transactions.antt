-- ===== src/Wallet/Transactions.antt =====
-- In which order a wallet shows its transactions, and how one of them is found again.
use Prim.Native.Nat.{Ordering}
use mathlib.Core.List.{Permᴰ}
use mathlib.Core.List.Permᴰ
use native.Mathlib.Decide.{dec_lt}
use bdk_ffi.Prelude.{
  ℕ, ◌≤◌, ◌<◌, String, List, map, Option, none, some, ok, err, All, All-map, All-Permᴰ, Ordered,
  Ordered-map, Option-cases, ◌≡◌, ◌≢◌, ◌↔◌, inl, inr, ◌∙◌, refl, arith,
}
use bdk_ffi.Extern.{Primitives}
use bdk_ffi.Bitcoin.Library.{BitcoinLibrary}
use bdk_ffi.Bitcoin.Transaction.{compute_txid}
use bdk_ffi.Errors.Small.{invalid_txid}
use bdk_ffi.Views.Library.{HashLibrary, BdkChainPosition, BdkConfirmationBlockTime, BdkCanonicalTx}
use bdk_ffi.Views.Records.{ChainPosition, CanonicalTx, from_chain_position, from_canonical_tx}
use bdk_ffi.Requests.Library.{ScanLibrary}
use bdk_ffi.Wallet.Library.{WalletLibrary}
use bdk_ffi.Wallet.Methods.{transactions, get_tx, by_position}

-- A comparison that turns around with its arguments, and is transitive.
abbrev pub flip : Ordering → Ordering
flip Ordering.lt = Ordering.gt
flip Ordering.eq = Ordering.eq
flip Ordering.gt = Ordering.lt

pub record IsOrder {A : Type 0} (compare : A → A → Ordering) : Type 0 where
  pub flips : (a b : A) → compare a b ≡ flip (compare b a)
  pub trans :
      (a b c : A)
      → compare a b ≢ Ordering.gt
      → compare b c ≢ Ordering.gt
      → compare a c ≢ Ordering.gt

-- What the library promises of chain positions: they are ordered, a confirmed one is less than one that is not, and of
-- two confirmed ones the lower is less.
pub record IsChainOrder (P : Primitives) (H : HashLibrary)
    (compare : BdkChainPosition P H → BdkChainPosition P H → Ordering) : Type 0 where
  pub order : IsOrder compare
  pub confirmed_first :
      (anchor : BdkConfirmationBlockTime H) (via : Option P.Txid) (last_seen : Option ℕ)
      → compare (BdkChainPosition.confirmed anchor via) (BdkChainPosition.unconfirmed last_seen)
        ≡ Ordering.lt
  pub lower_first :
      (a b : BdkConfirmationBlockTime H) (via via' : Option P.Txid)
      → a.block_id.height < b.block_id.height
      → compare (BdkChainPosition.confirmed a via) (BdkChainPosition.confirmed b via') ≡ Ordering.lt

-- What it promises of the transactions that a wallet knows: they are sorted by any order that is asked for, and each is
-- found by its identifier, which can be printed and parsed.
pub record IsLedger (P : Primitives) (L : BitcoinLibrary P) (H : HashLibrary) (S : ScanLibrary P)
    (W : WalletLibrary P L H S) : Type 0 where
  pub known : P.Wallet → List (BdkCanonicalTx P H)
  pub sort_by-Permᴰ :
      (wallet : P.Wallet) (compare : BdkCanonicalTx P H → BdkCanonicalTx P H → Ordering)
      → Permᴰ (W.transactions_sort_by wallet compare) (known wallet)
  pub sort_by-Ordered :
      (wallet : P.Wallet) (compare : BdkCanonicalTx P H → BdkCanonicalTx P H → Ordering)
      → IsOrder compare
      → Ordered (λ a b. compare a b ≢ Ordering.gt) (W.transactions_sort_by wallet compare)
  pub get_known :
      (wallet : P.Wallet)
      → All (λ tx. W.get_tx wallet (L.compute_txid tx.tx) ≡ some tx) (known wallet)
  pub parse_printed : (txid : P.Txid) → P.parse_txid (P.txid_string txid) ≡ some txid

-- The earlier of two shown positions is not older: nothing is, if it is unconfirmed; otherwise the later one is confirmed
-- as well, and not above it.
abbrev pub NotOlder : ChainPosition → ChainPosition → Type 0
NotOlder (ChainPosition.unconfirmed _) later = Unit
NotOlder (ChainPosition.confirmed block via) (ChainPosition.unconfirmed _) = ⊥
NotOlder (ChainPosition.confirmed block via) (ChainPosition.confirmed block' via') =
    block'.block_id.height ≤ block.block_id.height

module _ (P : Primitives) (L : BitcoinLibrary P) (H : HashLibrary) (S : ScanLibrary P)
    (W : WalletLibrary P L H S) (chain : IsChainOrder P H W.compare) where
  by_position-IsOrder : IsOrder (by_position P L H S W)
  unfolding by_position
  by_position-IsOrder = record {
    flips = λ a b. chain.order.flips b.chain_position a.chain_position;
    trans =
        λ a b c ab bc. chain.order.trans c.chain_position b.chain_position a.chain_position bc ab;
  }

  from_chain_position-NotOlder :
      (first later : BdkChainPosition P H)
      → W.compare later first ≢ Ordering.gt
      → NotOlder (from_chain_position P H first) (from_chain_position P H later)
  unfolding from_chain_position
  from_chain_position-NotOlder (BdkChainPosition.unconfirmed _) later le = tt
  from_chain_position-NotOlder (BdkChainPosition.confirmed a via) (BdkChainPosition.unconfirmed t)
        le =
      le (chain.order.flips _ _ ∙ rw (chain.confirmed_first a via t) refl)
  from_chain_position-NotOlder (BdkChainPosition.confirmed a via)
        (BdkChainPosition.confirmed b via') le =
      elim (dec_lt a.block_id.height b.block_id.height) [
        | yes lower ↦
            elim (le (chain.order.flips _ _ ∙ rw (chain.lower_first a b via via' lower) refl)) [ ]
        | no above ↦ omega (arith, above)
      ]

module _ (P : Primitives) (L : BitcoinLibrary P) (H : HashLibrary) (S : ScanLibrary P)
    (W : WalletLibrary P L H S) (ledger : IsLedger P L H S W) where
  -- If the library orders chain positions, a confirmed one below one that is not and a lower one below a
  -- higher one, and sorts by the order it is given, then `Wallet::transactions` shows the transactions
  -- that the wallet knows, rearranged so that the newest stand first: none that is confirmed stands
  -- before one that is not, and none before one that is confirmed in a higher block.
  pub transactions-Ordered :
      IsChainOrder P H W.compare
      → (wallet : P.Wallet)
      → (sorted : List (BdkCanonicalTx P H)) × Permᴰ sorted (ledger.known wallet)
        × (transactions P L H S W wallet ≡ map (from_canonical_tx P H) sorted)
        × Ordered
            (λ (a b : CanonicalTx P). NotOlder a.chain_position b.chain_position)
            (transactions P L H S W wallet)
  unfolding transactions from_canonical_tx by_position
  transactions-Ordered chain wallet = (
    W.transactions_sort_by wallet (by_position P L H S W),
    ledger.sort_by-Permᴰ wallet (by_position P L H S W),
    refl,
    Ordered-map (from_canonical_tx P H) _ _ (W.transactions_sort_by wallet (by_position P L H S W))
        (λ a b le.
          from_chain_position-NotOlder P L H S W chain a.chain_position b.chain_position le)
        (ledger.sort_by-Ordered wallet (by_position P L H S W)
          (by_position-IsOrder P L H S W chain)),
  )

  -- If the library finds the transactions that a wallet knows by their identifiers, and a printed
  -- identifier parses to itself, then every transaction that `Wallet::transactions` shows is what
  -- `Wallet::get_tx` finds under the text that the bindings' `Transaction::compute_txid` gives for it,
  -- with the same chain position.
  pub get_tx-transactions :
      (wallet : P.Wallet)
      → All
          (λ (tx : CanonicalTx P).
            get_tx P L H S W wallet (compute_txid P L tx.transaction) ≡ ok (some tx))
          (transactions P L H S W wallet)
  unfolding transactions get_tx compute_txid from_canonical_tx
  get_tx-transactions wallet =
      All-map (from_canonical_tx P H) (λ tx. W.get_tx wallet (L.compute_txid tx.tx) ≡ some tx) _
        (W.transactions_sort_by wallet (by_position P L H S W))
        (λ tx found. rw (ledger.parse_printed (L.compute_txid tx.tx), found) refl)
        (All-Permᴰ (λ tx. W.get_tx wallet (L.compute_txid tx.tx) ≡ some tx) (ledger.known wallet) _
          (Permᴰ.symm (ledger.sort_by-Permᴰ wallet (by_position P L H S W)))
          (ledger.get_known wallet))

  pub get_tx-eq-err :
      (wallet : P.Wallet) (txid : String)
      → (get_tx P L H S W wallet txid ≡ err (invalid_txid txid)) ↔ (P.parse_txid txid ≡ none)
  unfolding get_tx
  get_tx-eq-err wallet txid = elim (Option-cases (P.parse_txid txid)) [
    | inl e ↦ (λ _. e, λ _. rw (e, get_tx) refl)
    | inr (id, e) ↦ (λ same. ground arith, λ none. ground arith)
  ]
