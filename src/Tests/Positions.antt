-- ===== src/Tests/Positions.antt =====
-- Positions in the chain, ordered by height.
use Prim.Native.Nat.{Ordering}
use native.Mathlib.Decide.{dec_lt}
use bdk_ffi.Prelude.{ℕ, ◌≤◌, ◌<◌, String, ◌≡◌, ◌≢◌, refl, arith}
use bdk_ffi.Views.Library.{HashLibrary, BdkChainPosition}
use bdk_ffi.Wallet.Transactions.{flip, IsChainOrder}
use bdk_ffi.Tests.Primitives.{plain}

abbrev pub hashes : HashLibrary
hashes = record { BlockHash = String; block_hash_string = λ hash. hash }

-- Numbers in their order.
abbrev pub ordering : (a b : ℕ) → Dec (a < b) → Dec (b < a) → Ordering
ordering a b (yes _) _ = Ordering.lt
ordering a b (no _) (yes _) = Ordering.gt
ordering a b (no _) (no _) = Ordering.eq

ordering-flips :
    (a b : ℕ) (lower : Dec (a < b)) (higher : Dec (b < a))
    → ordering a b lower higher ≡ flip (ordering b a higher lower)
ordering-flips a b (yes lower) (yes higher) = ground arith
ordering-flips a b (yes lower) (no _) = refl
ordering-flips a b (no _) (yes higher) = refl
ordering-flips a b (no _) (no _) = refl

le_of_ordering :
    (a b : ℕ) (lower : Dec (a < b)) (higher : Dec (b < a))
    → ordering a b lower higher ≢ Ordering.gt
    → a ≤ b
le_of_ordering a b (yes lower) _ ne = omega arith
le_of_ordering a b (no _) (yes higher) ne = elim (ne refl) [ ]
le_of_ordering a b (no _) (no above) ne = omega arith

ordering_of_le :
    (a b : ℕ) (lower : Dec (a < b)) (higher : Dec (b < a))
    → a ≤ b
    → ordering a b lower higher ≢ Ordering.gt
ordering_of_le a b (yes _) _ le e = ground arith
ordering_of_le a b (no _) (yes higher) le e = omega arith
ordering_of_le a b (no _) (no _) le e = ground arith

ordering_below :
    (a b : ℕ) (lower : Dec (a < b)) (higher : Dec (b < a))
    → a < b
    → ordering a b lower higher ≡ Ordering.lt
ordering_below a b (yes _) _ lt = refl
ordering_below a b (no above) _ lt = elim (above lt) [ ]

abbrev pub Position : Type 0
Position = BdkChainPosition plain hashes

-- Confirmed positions by their height, below those that are not confirmed.
abbrev pub compare_positions : Position → Position → Ordering
compare_positions (BdkChainPosition.confirmed a _) (BdkChainPosition.confirmed b _) =
    ordering a.block_id.height b.block_id.height (dec_lt a.block_id.height b.block_id.height)
      (dec_lt b.block_id.height a.block_id.height)
compare_positions (BdkChainPosition.confirmed _ _) (BdkChainPosition.unconfirmed _) = Ordering.lt
compare_positions (BdkChainPosition.unconfirmed _) (BdkChainPosition.confirmed _ _) = Ordering.gt
compare_positions (BdkChainPosition.unconfirmed _) (BdkChainPosition.unconfirmed _) = Ordering.eq

compare-flips : (a b : Position) → compare_positions a b ≡ flip (compare_positions b a)
compare-flips (BdkChainPosition.confirmed a _) (BdkChainPosition.confirmed b _) =
    ordering-flips a.block_id.height b.block_id.height (dec_lt a.block_id.height b.block_id.height)
      (dec_lt b.block_id.height a.block_id.height)
compare-flips (BdkChainPosition.confirmed _ _) (BdkChainPosition.unconfirmed _) = refl
compare-flips (BdkChainPosition.unconfirmed _) (BdkChainPosition.confirmed _ _) = refl
compare-flips (BdkChainPosition.unconfirmed _) (BdkChainPosition.unconfirmed _) = refl

compare_trans :
    (a b c : Position)
    → compare_positions a b ≢ Ordering.gt
    → compare_positions b c ≢ Ordering.gt
    → compare_positions a c ≢ Ordering.gt
compare_trans (BdkChainPosition.confirmed a _) (BdkChainPosition.confirmed b _)
      (BdkChainPosition.confirmed c _) ab bc =
    let first = le_of_ordering a.block_id.height b.block_id.height _ _ ab in
    let second = le_of_ordering b.block_id.height c.block_id.height _ _ bc in
    ordering_of_le a.block_id.height c.block_id.height _ _ (omega (arith, first, second))
compare_trans (BdkChainPosition.confirmed _ _) (BdkChainPosition.unconfirmed _)
      (BdkChainPosition.confirmed _ _) ab bc =
    elim (bc refl) [ ]
compare_trans (BdkChainPosition.unconfirmed _) (BdkChainPosition.confirmed _ _)
      (BdkChainPosition.confirmed _ _) ab bc =
    elim (ab refl) [ ]
compare_trans (BdkChainPosition.unconfirmed _) (BdkChainPosition.unconfirmed _)
      (BdkChainPosition.confirmed _ _) ab bc =
    elim (bc refl) [ ]
compare_trans (BdkChainPosition.confirmed _ _) _ (BdkChainPosition.unconfirmed _) ab bc =
    λ e. ground arith
compare_trans (BdkChainPosition.unconfirmed _) _ (BdkChainPosition.unconfirmed _) ab bc =
    λ e. ground arith

pub positions-IsChainOrder : IsChainOrder plain hashes compare_positions
positions-IsChainOrder = record {
  order = record { flips = compare-flips; trans = compare_trans };
  confirmed_first = λ anchor via last_seen. refl;
  lower_first = λ a b via via' lower. ordering_below a.block_id.height b.block_id.height _ _ lower;
}
